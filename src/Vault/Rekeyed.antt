-- ===== src/Vault/Rekeyed.antt =====
-- What `retrieve` returns after a change of the password.
use memseal.Prelude.{◌≡◌, ◌≢◌, sym, ap, ◌∙◌, subst, [], ◌∷◌, some, All}
use memseal.Bytes.{Bytes}
use memseal.Errors.{ok, ok-injective}
use memseal.Exec.{pure_step, own_step}
use memseal.HashMap.{HashMap}
use memseal.Platform.{Platform, IsSound}
use memseal.Types.{IndexEntry, VaultIndex, Vault}
use memseal.Owned.{Owned}
use memseal.Index.Keys.{hmac_key_for_name}
use memseal.Vault.Keys.{extract_enc_key, verify_password}
use memseal.Vault.Secrets.{old_plaintexts, retrieve}
use memseal.Vault.Store.{store}
use memseal.Vault.Stored.{store-Stored}
use memseal.Vault.Session.{rekey_entries, change_password}
use memseal.Vault.Changed.{Rekeyed, change_password-Rekeyed}
use memseal.Vault.Retrieve.{retrieve-store, retrieve_other-store, hmac_key_for_name-stored_index}

module _ (p : Platform) where
  -- The entries hold these names and plaintexts under the key.
  abbrev pub Reads : Bytes → HashMap IndexEntry → HashMap Bytes → Type 0
  Reads old_key [] [] = Unit {0}
  Reads old_key ((k, e) ∷ files) ((name, plaintext) ∷ plain) =
      (old_plaintexts p old_key k e ≡ ok (name, plaintext)) × Reads old_key files plain
  Reads old_key _ _ = ⊥

  -- No name has the HMAC key of this one.
  abbrev IsApart : VaultIndex → Bytes → HashMap Bytes → Type 0
  IsApart index name plain =
      All (λ q. hmac_key_for_name p index q.0 ≢ hmac_key_for_name p index name) plain

  -- The names have different HMAC keys.
  abbrev pub AllApart : VaultIndex → HashMap Bytes → Type 0
  AllApart index [] = Unit {0}
  AllApart index ((name, plaintext) ∷ plain) = IsApart index name plain × AllApart index plain

  -- `retrieve` returns each plaintext under its name.
  abbrev pub Holds : Vault → HashMap Bytes → Type 0
  Holds v plain = All (λ q. retrieve p v q.0 ≡ ok (some q.1)) plain

  same_keys-store :
      (name plaintext m : Bytes) (s s' : Owned Vault)
      → store p name plaintext s ≡ (ok tt, s')
      → hmac_key_for_name p s'.self.index m ≡ hmac_key_for_name p s.self.index m
  same_keys-store name plaintext m s s' h =
      let d = store-Stored p name plaintext s s' h in
      ap (λ (w : Vault). hmac_key_for_name p w.index m) d.result
      ∙ hmac_key_for_name-stored_index p s.self.index _ _ m

  pub same_keys-rekey_entries :
      (old_key m : Bytes) (files : HashMap IndexEntry) (s s' : Owned Vault)
      → rekey_entries p old_key files s ≡ (ok tt, s')
      → hmac_key_for_name p s'.self.index m ≡ hmac_key_for_name p s.self.index m
  unfolding rekey_entries
  same_keys-rekey_entries old_key m [] s s' h =
      ap (λ q. hmac_key_for_name p q.1.self.index m) (sym h)
  same_keys-rekey_entries old_key m ((k, e) ∷ files) s s' h =
      pure_step G (old_plaintexts p old_key k e) _ h λ (name, plaintext) o1 q1.
        own_step G (store p name plaintext s) _ q1 λ u s1 t1 q2.
          same_keys-rekey_entries old_key m files s1 s' q2
          ∙ same_keys-store name plaintext m s s1 t1
    where
      G : Type 0
      G = hmac_key_for_name p s'.self.index m ≡ hmac_key_for_name p s.self.index m

  -- The loop does not touch a name whose key is none of those that it stores under. `index` stands
  -- for an index with the same HMAC keys.
  retrieve-rekey_entries :
      (index : VaultIndex) (old_key name j : Bytes) (files : HashMap IndexEntry)
      (plain : HashMap Bytes) (s s' : Owned Vault)
      → ((m : Bytes) → hmac_key_for_name p s.self.index m ≡ hmac_key_for_name p index m)
      → hmac_key_for_name p index name ≡ ok j
      → Reads old_key files plain
      → IsApart index name plain
      → rekey_entries p old_key files s ≡ (ok tt, s')
      → retrieve p s'.self name ≡ retrieve p s.self name
  unfolding rekey_entries
  retrieve-rekey_entries index old_key name j [] [] s s' same keyed reads apart h =
      ap (λ q. retrieve p q.1.self name) (sym h)
  retrieve-rekey_entries index old_key name j [] (q ∷ plain) s s' same keyed reads apart h =
      absurd reads
  retrieve-rekey_entries index old_key name j (f ∷ files) [] s s' same keyed reads apart h =
      absurd reads
  retrieve-rekey_entries index old_key name j ((k, e) ∷ files) ((n, t) ∷ plain) s s' same keyed
        reads apart h =
      pure_step G (old_plaintexts p old_key k e) _ h λ nt o1 q1.
        own_step G (store p nt.0 nt.1 s) _ q1 λ u s1 t1 q2.
          let this : nt ≡ (n, t) = ok-injective (sym o1 ∙ reads.0) in
          let other : hmac_key_for_name p s.self.index nt.0 ≢ ok j = λ same_key. apart.0 (
            sym (same n)
            ∙ (ap (λ (q : Bytes × Bytes). hmac_key_for_name p s.self.index q.0) (sym this)
                ∙ (same_key ∙ sym keyed))) in
          retrieve-rekey_entries index old_key name j files plain s1 s'
            (λ m. same_keys-store nt.0 nt.1 m s s1 t1 ∙ same m) keyed reads.1 apart.1 q2
          ∙ retrieve_other-store p nt.0 nt.1 name s s1 j t1 (same name ∙ keyed) other
    where
      G : Type 0
      G = retrieve p s'.self name ≡ retrieve p s.self name

  rekey_entries-Holds :
      (sound : IsSound p) (index : VaultIndex) (old_key : Bytes) (files : HashMap IndexEntry)
      (plain : HashMap Bytes) (s s' : Owned Vault)
      → ((m : Bytes) → hmac_key_for_name p s.self.index m ≡ hmac_key_for_name p index m)
      → Reads old_key files plain
      → AllApart index plain
      → rekey_entries p old_key files s ≡ (ok tt, s')
      → Holds s'.self plain
  unfolding rekey_entries
  rekey_entries-Holds sound index old_key [] [] s s' same reads apart h = tt
  rekey_entries-Holds sound index old_key [] (q ∷ plain) s s' same reads apart h = absurd reads
  rekey_entries-Holds sound index old_key (f ∷ files) [] s s' same reads apart h = absurd reads
  rekey_entries-Holds sound index old_key ((k, e) ∷ files) ((n, t) ∷ plain) s s' same reads apart
        h =
      pure_step G (old_plaintexts p old_key k e) _ h λ nt o1 q1.
        own_step G (store p nt.0 nt.1 s) _ q1 λ u s1 t1 q2.
          let this : nt ≡ (n, t) = ok-injective (sym o1 ∙ reads.0) in
          let stored_now : store p n t s ≡ (ok tt, s1) =
            subst (λ (q : Bytes × Bytes). store p q.0 q.1 s ≡ (ok tt, s1)) this t1 in
          let d = store-Stored p n t s s1 stored_now in
          let same' : (m : Bytes)
              → hmac_key_for_name p s1.self.index m ≡ hmac_key_for_name p index m =
            λ m. same_keys-store n t m s s1 stored_now ∙ same m in
          (
            retrieve-rekey_entries index old_key n d.hmac_key files plain s1 s' same'
                  (sym (same n) ∙ d.keyed) reads.1 apart.0 q2
                ∙ retrieve-store p sound n t s s1 stored_now,
            rekey_entries-Holds sound index old_key files plain s1 s' same' reads.1 apart.1 q2,
          )
    where
      G : Type 0
      G = Holds s'.self ((n, t) ∷ plain)

  -- When `rekey` succeeds and the names of the vault have different HMAC keys afterwards, `retrieve`
  -- returns every plaintext that the old entries held, under its name.
  pub Rekeyed-Holds :
      (sound : IsSound p) (password old_key : Bytes) (plain : HashMap Bytes) (s : Owned Vault)
      (v' : Vault)
      → extract_enc_key s.self.index.enc_key ≡ ok old_key
      → Reads old_key s.self.index.files plain
      → AllApart v'.index plain
      → Rekeyed p password s v'
      → Holds v' plain
  Rekeyed-Holds sound password old_key plain s v' extracted reads apart d =
      let same_key : d.old_key ≡ old_key = ok-injective (sym d.extracted ∙ extracted) in
      let reads' = subst (λ k. Reads k s.self.index.files plain) (sym same_key) reads in
      let from : Owned Vault = record { self = d.new_vault; os = d.made_at } in
      let to : Owned Vault = record { self = v'; os = d.done_at } in
      rekey_entries-Holds sound v'.index d.old_key s.self.index.files plain from to
        (λ m. sym (same_keys-rekey_entries d.old_key m s.self.index.files from to d.run)) reads'
        apart d.run

  -- On a platform that keeps the laws of `IsSound`: when `change_password` succeeds, the old
  -- entries hold a list of names and plaintexts under the old encryption key, and these names have
  -- different HMAC keys afterwards, then the current password was verified, and `retrieve` returns
  -- every plaintext under its name.
  pub change_password-Holds :
      (sound : IsSound p) (current new old_key : Bytes) (plain : HashMap Bytes) (s s' : Owned Vault)
      → extract_enc_key s.self.index.enc_key ≡ ok old_key
      → Reads old_key s.self.index.files plain
      → AllApart s'.self.index plain
      → change_password p current new s ≡ (ok tt, s')
      → (verify_password p s.self current ≡ ok tt) × Holds s'.self plain
  change_password-Holds sound current new old_key plain s s' extracted reads apart h =
      let (verified, d) = change_password-Rekeyed p current new s s' h in
      (verified, Rekeyed-Holds sound new old_key plain s s'.self extracted reads apart d)
