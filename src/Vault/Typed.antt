-- ===== src/Vault/Typed.antt =====
-- The bytes of src/vault/facade.rs are lists of numbers here; every vault that a program reaches keeps
-- them below 256 and at the lengths of their Rust types.
use memseal.Prelude.{◌≡◌, refl, sym, ap, subst, [], ◌∷◌, All, All-append, inl, inr, Option}
use memseal.Bytes.{Bytes, IsByte}
use memseal.Errors.{
  Result, ok, err, VaultError, IndexError, from_index_error, map_err, random, counter_overflow,
  nonce_counter,
}
use memseal.Exec.{pure_step, own_step, pure_post, state_post}
use memseal.HashMap.{HashMap}
use memseal.HashMap.Laws.{insert-All, remove-All}
use memseal.Platform.{Platform, IsSound}
use memseal.Types.{IndexEntry, VaultIndex, Vault}
use memseal.Owned.{Owned, on_index, on_os}
use memseal.Crypto.Random.{secure_bytes_fill, ok_or}
use memseal.Crypto.Aead.{seal_with_aad-AreBytes}
use memseal.Index.{checked_succ, advance_nonce, remove_by_key}
use memseal.Index.Map.{remove_by_key-remove}
use memseal.Index.Subkeys.{IsSubkey}
use memseal.Index.Keys.{hmac_key_for_name}
use memseal.Vault.Secrets.{old_plaintexts}
use memseal.Vault.Store.{store}
use memseal.Vault.Remove.{remove}
use memseal.Vault.Export.{export}
use memseal.Vault.Session.{rekey_entries, change_password}
use memseal.Vault.Stored.{Filled, secure_bytes_fill-Filled, Stored, store-Stored, new_entry}
use memseal.Vault.Failing.{IsSpared, store_failing, change_password_failing}
use memseal.Vault.Keeps.{export-advance_nonce, save-export}
use memseal.Vault.Produces.{HasBytes}
use memseal.Vault.Changed.{change_password-Rekeyed, create-fresh_vault}
use memseal.Vault.Fresh.{IsNonce, IsFresh, fresh_vault-IsFresh}
use memseal.Vault.Reached.{Step, stored, removed, exported, saved, changed, Reached, created, then}

pub record IsTyped (index : VaultIndex) : Type 0 where
  pub nonce : IsNonce index.nonce
  pub enc_key : IsSubkey index.enc_key.region
  pub hmac_key : IsSubkey index.hmac_key.region
  pub entries : All HasBytes index.files

module _ (p : Platform) (sound : IsSound p) where
  Filled-IsNonce : (nonce : Bytes) → Filled p 24 nonce → IsNonce nonce
  Filled-IsNonce nonce d =
      (sound.fill_length d.at 24 nonce d.answer, sound.fill_bytes d.at 24 nonce d.answer)

  IsFresh-IsTyped : (v : Vault) → IsFresh v → IsTyped v.index
  IsFresh-IsTyped v d = record {
    nonce = d.nonce_ok;
    enc_key = d.enc_key_ok;
    hmac_key = d.hmac_key_ok;
    entries = subst (All HasBytes) (sym d.empty) tt;
  }

  Stored-IsTyped :
      {name plaintext : Bytes} {v v' : Vault}
      → Stored p name plaintext v v'
      → IsTyped v.index
      → IsTyped v'.index
  Stored-IsTyped {name} {plaintext} {v} {v'} d typed =
      let entry = new_entry d.counter d.name_nonce d.name_ct d.data_nonce d.data_ct in
      let name_bytes =
        All-append IsByte d.name_nonce d.name_ct (Filled-IsNonce d.name_nonce d.name_filled).1
          (seal_with_aad-AreBytes p sound _ _ _ _ d.name_ct d.name_sealed) in
      let data_bytes =
        All-append IsByte d.data_nonce d.data_ct (Filled-IsNonce d.data_nonce d.data_filled).1
          (seal_with_aad-AreBytes p sound _ _ _ _ d.data_ct d.data_sealed) in
      subst (λ (w : Vault). IsTyped w.index) (sym d.result)
        (record {
          nonce = typed.nonce;
          enc_key = typed.enc_key;
          hmac_key = typed.hmac_key;
          entries =
              insert-All HasBytes d.hmac_key entry v.index.files
                (λ j same. (name_bytes, data_bytes)) typed.entries;
        })

  store-IsTyped :
      (name plaintext : Bytes) (s : Owned Vault)
      → IsTyped s.self.index
      → IsTyped (store p name plaintext s).1.self.index
  store-IsTyped name plaintext s typed = by_outcome (store p name plaintext s) refl
    where
      spared : (v' : Vault) → IsSpared s.self v' → IsTyped v'.index
      spared v' (inl same) = subst (λ (w : Vault). IsTyped w.index) (sym same) typed
      spared v' (inr (fits, one)) =
          subst (λ (w : Vault). IsTyped w.index) (sym one)
            (record {
              nonce = typed.nonce;
              enc_key = typed.enc_key;
              hmac_key = typed.hmac_key;
              entries = typed.entries;
            })

      by_outcome :
          (q : Result VaultError (Unit {0}) × Owned Vault)
          → store p name plaintext s ≡ q
          → IsTyped q.1.self.index
      by_outcome (ok u, t) h = Stored-IsTyped (store-Stored p name plaintext s t h) typed
      by_outcome (err e, t) h = spared t.self (store_failing p name plaintext e s t h)

  remove_by_key-IsTyped :
      (k : Bytes) (index : VaultIndex) → IsTyped index → IsTyped (remove_by_key k index).1
  remove_by_key-IsTyped k index typed =
      subst (λ (q : Option IndexEntry × VaultIndex). IsTyped q.1)
        (sym (remove_by_key-remove k index))
        (record {
          nonce = typed.nonce;
          enc_key = typed.enc_key;
          hmac_key = typed.hmac_key;
          entries = remove-All HasBytes k index.files typed.entries;
        })

  remove-IsTyped : (name : Bytes) (v : Vault) → IsTyped v.index → IsTyped (remove p name v).1.index
  unfolding remove
  remove-IsTyped name v typed =
      pure_post (λ q. IsTyped q.1.index)
        (map_err from_index_error (hmac_key_for_name p v.index name)) _ v (λ _ _. typed)
        (λ k h. remove_by_key-IsTyped k v.index typed)

  advance_nonce-IsTyped :
      (s : Owned Vault) → IsTyped s.self.index → IsTyped (on_index (advance_nonce p) s).1.self.index
  unfolding advance_nonce
  advance_nonce-IsTyped s typed =
      pure_post Q (ok_or (checked_succ s.self.index.nonce_counter) (counter_overflow nonce_counter))
        _ (record { self = s.self.index; os = s.os }) (λ _ _. typed)
        λ m o1.
          let counted : IsTyped (record s.self.index { nonce_counter = m }) = record {
            nonce = typed.nonce;
            enc_key = typed.enc_key;
            hmac_key = typed.hmac_key;
            entries = typed.entries;
          } in
          state_post Q random (on_os (secure_bytes_fill p 24) _) _
            (λ x t h. subst (λ i. IsTyped i) (ap (λ q. q.1.self) h) counted)
            λ nonce t h.
              let d = secure_bytes_fill-Filled p 24 nonce s.os t.os (λ i. ((h i).0, (h i).1.os)) in
              let same = subst (λ i. IsTyped i) (ap (λ q. q.1.self) h) counted in
              record {
                nonce = Filled-IsNonce nonce d;
                enc_key = same.enc_key;
                hmac_key = same.hmac_key;
                entries = same.entries;
              }
    where
      Q : Result IndexError (Unit {0}) × Owned VaultIndex → Type 0
      Q q = IsTyped q.1.self

  export-IsTyped : (s : Owned Vault) → IsTyped s.self.index → IsTyped (export p s).1.self.index
  export-IsTyped s typed =
      subst (λ (t : Owned Vault). IsTyped t.self.index) (sym (export-advance_nonce p s))
        (advance_nonce-IsTyped s typed)

  rekey_entries-IsTyped :
      (old_key : Bytes) (files : HashMap IndexEntry) (s s' : Owned Vault)
      → IsTyped s.self.index
      → rekey_entries p old_key files s ≡ (ok tt, s')
      → IsTyped s'.self.index
  unfolding rekey_entries
  rekey_entries-IsTyped old_key [] s s' typed h =
      subst (λ (t : Owned Vault). IsTyped t.self.index) (ap (λ q. q.1) h) typed
  rekey_entries-IsTyped old_key ((k, e) ∷ files) s s' typed h =
      pure_step (IsTyped s'.self.index) (old_plaintexts p old_key k e) _ h λ nt o1 q1.
        own_step (IsTyped s'.self.index) (store p nt.0 nt.1 s) _ q1 λ u s1 t1 q2.
          rekey_entries-IsTyped old_key files s1 s'
            (Stored-IsTyped (store-Stored p nt.0 nt.1 s s1 t1) typed) q2

  change_password-IsTyped :
      (current new : Bytes) (s : Owned Vault)
      → IsTyped s.self.index
      → IsTyped (change_password p current new s).1.self.index
  change_password-IsTyped current new s typed = by_outcome (change_password p current new s) refl
    where
      by_outcome :
          (q : Result VaultError (Unit {0}) × Owned Vault)
          → change_password p current new s ≡ q
          → IsTyped q.1.self.index
      by_outcome (ok u, t) h =
          let (_, d) = change_password-Rekeyed p current new s t h in
          rekey_entries-IsTyped d.old_key s.self.index.files
            (record { self = d.new_vault; os = d.made_at })
            (record { self = t.self; os = d.done_at })
            (IsFresh-IsTyped d.new_vault
              (fresh_vault-IsFresh p sound new d.new_vault s.os d.made_at d.made))
            d.run
      by_outcome (err e, t) h =
          subst (λ (v : Vault). IsTyped v.index)
            (sym (change_password_failing p current new e s t h)) typed

  Step-IsTyped : (s t : Owned Vault) → Step p s t → IsTyped s.self.index → IsTyped t.self.index
  Step-IsTyped _ _ (stored name plaintext s) typed = store-IsTyped name plaintext s typed
  Step-IsTyped _ _ (removed name s) typed = remove-IsTyped name s.self typed
  Step-IsTyped _ _ (exported s) typed = export-IsTyped s typed
  Step-IsTyped _ _ (saved path s) typed =
      subst (λ (v : Vault). IsTyped v.index) (sym (save-export p path s)) (export-IsTyped s typed)
  Step-IsTyped _ _ (changed current new s) typed = change_password-IsTyped current new s typed

  -- On a platform that keeps the laws of `IsSound`: in every vault that starts with `create` and goes
  -- through any sequence of `store`, `remove`, `export`, `save` and `change_password`, each of which may
  -- succeed or fail, the nonce is 24 bytes, each subkey is 32 bytes, and every ciphertext consists of
  -- bytes.
  pub Reached-IsTyped : (s : Owned Vault) → Reached p s → IsTyped s.self.index
  Reached-IsTyped _ (created password v os os' h) =
      IsFresh-IsTyped v
        (fresh_vault-IsFresh p sound password v os os' (create-fresh_vault p password v os os' h))
  Reached-IsTyped _ (then s t before step) = Step-IsTyped s t step (Reached-IsTyped s before)
