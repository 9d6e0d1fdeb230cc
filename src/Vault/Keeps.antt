-- ===== src/Vault/Keeps.antt =====
-- `create`, `export`, `save` and `change_password` keep the invariant of the index.
use memseal.Prelude.{ℕ, ◌≤◌, ◌≡◌, sym, ap, subst, arith, some}
use memseal.Constants.{u64_max}
use memseal.Bytes.{Bytes}
use memseal.Errors.{
  Result, ok, err, VaultError, IndexError, from_index_error, from_aead_error, random, locked_memory,
  map_err as map_err_result, ok-injective, counter_overflow, nonce_counter,
}
use memseal.Exec.{pure_step, state_step, own_step, pure_post, state_post, own_post}
use memseal.Platform.{Platform, Os}
use memseal.Types.{VaultIndex, Vault}
use memseal.Owned.{Owned, on_os, on_index}
use memseal.Codec.Encode.{encode_index}
use memseal.Crypto.Random.{secure_bytes_fill, ok_or}
use memseal.Crypto.Aead.{ok_or-eq-ok, seal_with_aad}
use memseal.Secret.{secret_new}
use memseal.Header.{generate, to_aad_bytes}
use memseal.Index.{checked_succ, advance_nonce, from_master_key}
use memseal.Index.Keys.{derive_subkeys}
use memseal.Index.Valid.{IsValid}
use memseal.Vault.Keys.{derive_master_key, extract_enc_key, validate_export_size}
use memseal.Vault.Export.{export}
use memseal.Vault.Session.{fresh_vault, map_ok}
use memseal.Vault.Disk.{FilePath, save}

pub counter-IsValid :
    (index : VaultIndex) (m : ℕ)
    → m ≤ u64_max
    → IsValid index
    → IsValid (record index { nonce_counter = m })
counter-IsValid index m h v = record {
  encodable = record {
    nonce_counter_fits = h;
    data_nonce_counter_fits = v.encodable.data_nonce_counter_fits;
    count = v.encodable.count;
    distinct = v.encodable.distinct;
    storable = v.encodable.storable;
  };
  keyed = v.keyed;
  below = v.below;
}

pub nonce-IsValid :
    (index : VaultIndex) (nonce : Bytes) → IsValid index → IsValid (record index { nonce = nonce })
nonce-IsValid index nonce v = record {
  encodable = record {
    nonce_counter_fits = v.encodable.nonce_counter_fits;
    data_nonce_counter_fits = v.encodable.data_nonce_counter_fits;
    count = v.encodable.count;
    distinct = v.encodable.distinct;
    storable = v.encodable.storable;
  };
  keyed = v.keyed;
  below = v.below;
}

next-fits : (n m : ℕ) → checked_succ n ≡ some m → m ≤ u64_max
next-fits n m h = ground arith

pub map_ok-eq-ok :
    {A : Type 0} (r : Result VaultError (Unit {0})) (a b : A) → map_ok r a ≡ ok b → a ≡ b
map_ok-eq-ok (ok u) a b h = ok-injective h
map_ok-eq-ok (err e) a b h = cc

-- At most the nonce and its counter have changed.
abbrev pub IsRenewed : Vault → Vault → Type 0
IsRenewed v w = w ≡ record v {
  index = record v.index { nonce = w.index.nonce; nonce_counter = w.index.nonce_counter };
}

module _ (p : Platform) where
  advance_nonce-IsValid :
      (s : Owned VaultIndex) → IsValid s.self → IsValid (advance_nonce p s).1.self
  unfolding advance_nonce
  advance_nonce-IsValid s valid =
      pure_post Q (ok_or (checked_succ s.self.nonce_counter) (counter_overflow nonce_counter)) _ s
        (λ _ _. valid)
        λ m o1.
          let counted = counter-IsValid s.self m (next-fits _ m (ok_or-eq-ok _ _ m o1)) valid in
          state_post Q random (on_os (secure_bytes_fill p 24) _) _
            (λ x t h. subst (λ i. IsValid i) (ap (λ q. q.1.self) h) counted)
            λ nonce t h.
              nonce-IsValid t.self nonce (subst (λ i. IsValid i) (ap (λ q. q.1.self) h) counted)
    where
      Q : Result IndexError (Unit {0}) × Owned VaultIndex → Type 0
      Q q = IsValid q.1.self

  -- Behind the new nonce, `export` changes nothing, and `save` no more than `export`.
  pub export-advance_nonce : (s : Owned Vault) → (export p s).1 ≡ (on_index (advance_nonce p) s).1
  unfolding export to_aad_bytes
  export-advance_nonce s =
      state_post Q from_index_error (on_index (advance_nonce p) s) _
        (λ x t h. ap (λ q. q.1) (sym h))
        λ u s1 h1.
          let same = ap (λ q. q.1) (sym h1) in
          pure_post Q (ok_or (p.header_to_json s1.self.header) _) _ s1 (λ _ _. same)
            λ json o2.
              pure_post Q (encode_index s1.self.index) _ s1 (λ _ _. same)
                λ bytes o3.
                  pure_post Q (extract_enc_key s1.self.index.enc_key) _ s1 (λ _ _. same)
                    λ key o4.
                      pure_post Q (ok_or (p.header_to_json s1.self.header) _) _ s1 (λ _ _. same)
                        λ aad o5.
                          pure_post Q
                            (map_err_result from_aead_error
                              (seal_with_aad p key s1.self.index.nonce bytes aad))
                            _ s1 (λ _ _. same)
                            λ sealed o6.
                              pure_post Q (validate_export_size _) _ s1 (λ _ _. same) λ u7 o7. same
    where
      Q : Result VaultError Bytes × Owned Vault → Type 0
      Q q = q.1 ≡ (on_index (advance_nonce p) s).1

  pub save-export :
      (path : FilePath) (s : Owned Vault) → (save p path s).1.self ≡ (export p s).1.self
  unfolding save
  save-export path s =
      own_post Q (export p s) _ (λ x t h. ap (λ q. q.1.self) (sym h))
        λ out t h. ap (λ q. q.1.self) (sym h)
    where
      Q : Result VaultError (Unit {0}) × Owned Vault → Type 0
      Q q = q.1.self ≡ (export p s).1.self

  advance_nonce-IsRenewed :
      (s : Owned Vault) → IsRenewed s.self (on_index (advance_nonce p) s).1.self
  unfolding advance_nonce secure_bytes_fill
  advance_nonce-IsRenewed s = ground arith

  pub export-IsRenewed : (s : Owned Vault) → IsRenewed s.self (export p s).1.self
  export-IsRenewed s =
      subst (λ (t : Owned Vault). IsRenewed s.self t.self) (sym (export-advance_nonce s))
        (advance_nonce-IsRenewed s)

  pub save-IsRenewed : (path : FilePath) (s : Owned Vault) → IsRenewed s.self (save p path s).1.self
  save-IsRenewed path s = subst (IsRenewed s.self) (sym (save-export path s)) (export-IsRenewed s)

  pub export-IsValid : (s : Owned Vault) → IsValid s.self.index → IsValid (export p s).1.self.index
  export-IsValid s valid =
      subst (λ (t : Owned Vault). IsValid t.self.index) (sym (export-advance_nonce s))
        (advance_nonce-IsValid (record { self = s.self.index; os = s.os }) valid)

  pub save-IsValid :
      (path : FilePath) (s : Owned Vault)
      → IsValid s.self.index
      → IsValid (save p path s).1.self.index
  save-IsValid path s valid =
      subst (λ (v : Vault). IsValid v.index) (sym (save-export path s)) (export-IsValid s valid)

  pub fresh_vault-IsValid :
      (password : Bytes) (v : Vault) (os os' : Os)
      → fresh_vault p password os ≡ (ok v, os')
      → IsValid v.index
  unfolding fresh_vault from_master_key
  fresh_vault-IsValid password v os os' h = own_step G (generate p os) _ h λ header os1 t1 q1.
      pure_step G (derive_master_key p password header) _ q1 λ master_key o2 q2.
        state_step G from_index_error (from_master_key p master_key header.kdf_salt os1) _ q2
          λ index os3 t3 q3.
            subst (λ (w : Vault). IsValid w.index) (ok-injective (ap (λ q. q.0) q3))
              (new_index-IsValid master_key header.kdf_salt index os1 os3 t3)
    where
      G : Type 0
      G = IsValid v.index

      new_index-IsValid :
          (master_key salt : Bytes) (index : VaultIndex) (os os' : Os)
          → from_master_key p master_key salt os ≡ (ok index, os')
          → IsValid index
      new_index-IsValid master_key salt index os os' h =
          pure_step (IsValid index) (derive_subkeys p master_key salt) _ h λ subs o1 q1.
            state_step (IsValid index) random (secure_bytes_fill p 24 os) _ q1 λ nonce os2 t2 q2.
              state_step (IsValid index) locked_memory (secret_new p subs.0 os2) _ q2
                λ enc os3 t3 q3.
                  state_step (IsValid index) locked_memory (secret_new p subs.1 os3) _ q3
                    λ hmac os4 t4 q4. subst IsValid (ok-injective (ap (λ q. q.0) q4)) (record {
                      encodable = record {
                        nonce_counter_fits = omega arith;
                        data_nonce_counter_fits = omega arith;
                        count = omega arith;
                        distinct = tt;
                        storable = tt;
                      };
                      keyed = tt;
                      below = tt;
                    })
