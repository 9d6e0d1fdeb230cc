-- ===== src/Vault/Failing.antt =====
-- What is left behind by a call of `store`, `export`, `rekey` or `change_password` that fails.
use memseal.Prelude.{ℕ, ◌+◌, ◌<◌, ◌≡◌, refl, sym, ap, ◌∙◌, subst, arith, ◌⊎◌, inl, inr, length, ltb}
use memseal.Constants.{u64_max}
use memseal.Bytes.{Bytes}
use memseal.Errors.{
  Result, ok, err, VaultError, IndexError, from_index_error, from_aead_error, from_random_error,
  map_err as map_err_result, fail_if as fail_if_result,
}
use memseal.Exec.{pure_post, state_post, own_post}
use memseal.Platform.{Platform}
use memseal.Types.{IndexEntry, Vault}
use memseal.Owned.{Owned, on_os, on_self, on_index}
use memseal.Crypto.Random.{secure_bytes_fill}
use memseal.Crypto.Aead.{seal_with_aad}
use memseal.Index.{next_data_nonce_counter, insert_by_key}
use memseal.Index.Keys.{hmac_key_for_name}
use memseal.Vault.Keys.{build_entry_aad, extract_enc_key, verify_password, validate_password}
use memseal.Vault.Session.{fresh_vault, rekey_entries, map_ok, rekey, change_password}
use memseal.Vault.Store.{store}
use memseal.Vault.Stored.{new_entry, next_counter_step}

-- The vault with one data counter used.
abbrev pub counted : Vault → Vault
counted v = record v {
  index = record v.index { data_nonce_counter = v.index.data_nonce_counter + 1 };
}

no_counter :
    (x : IndexError) (s t : Owned Vault)
    → on_index (on_self next_data_nonce_counter) s ≡ (err x, t)
    → t.self ≡ s.self
unfolding next_data_nonce_counter
no_counter x s t h = ground arith

one_counter :
    (n : ℕ) (s t : Owned Vault)
    → on_index (on_self next_data_nonce_counter) s ≡ (ok n, t)
    → (s.self.index.data_nonce_counter < u64_max) × (t.self ≡ counted s.self)
one_counter n s t h =
    let (old, fits, after) = next_counter_step n s t h in
    (
      subst (λ m. m < u64_max) old fits,
      after
          ∙ ap (λ m. record s.self { index = record s.self.index { data_nonce_counter = m + 1 } })
              old,
    )

not_inserted :
    (k : Bytes) (entry : IndexEntry) (s : Owned Vault) (e : VaultError)
    → let (r, t) = on_index (on_self (insert_by_key k entry)) s in
      map_err_result from_index_error r ≡ err e → t.self ≡ s.self
unfolding insert_by_key
not_inserted k entry s e h = ground arith

-- Nothing has changed, or one data counter was used.
abbrev pub IsSpared : Vault → Vault → Type 0
IsSpared v v' = (v' ≡ v) ⊎ ((v.index.data_nonce_counter < u64_max) × (v' ≡ counted v))

-- A `store` that fails changes no entry, subkey, nonce or header: the vault is the one before, with at
-- most one data counter used, which was below the largest `u64`.
pub store_failing :
    (p : Platform) (name plaintext : Bytes) (e : VaultError) (s s' : Owned Vault)
    → store p name plaintext s ≡ (err e, s')
    → IsSpared s.self s'.self
unfolding store
store_failing p name plaintext e s s' h = subst (λ q. Q q) h run e refl
  where
    Q : Result VaultError (Unit {0}) × Owned Vault → Type 0
    Q q = (x : VaultError) → q.0 ≡ err x → IsSpared s.self q.1.self

    run : Q (store p name plaintext s)
    run =
        pure_post Q (fail_if_result (ltb 255 (length name)) _) _ s (λ _ _ _ _. inl refl)
          λ u1 o1.
            pure_post Q (fail_if_result (ltb 67108864 (length plaintext)) _) _ s
              (λ _ _ _ _. inl refl)
              λ u2 o2.
                pure_post Q
                  (map_err_result from_index_error (hmac_key_for_name p s.self.index name)) _ s
                  (λ _ _ _ _. inl refl)
                  λ k hk.
                    state_post Q from_index_error (on_index (on_self next_data_nonce_counter) s) _
                      (λ x t bad _ _. inl (no_counter x s t bad))
                      λ n s1 t1.
                        let (fits, one) = one_counter n s s1 t1 in
                        state_post Q from_random_error (on_os (secure_bytes_fill p 24) s1) _
                          (λ x t bad _ _. inr (fits, ap (λ q. q.1.self) (sym bad) ∙ one))
                          λ dn s2 t2.
                            let two : s2.self ≡ counted s.self =
                              ap (λ q. q.1.self) (sym t2) ∙ one in
                            state_post Q from_random_error (on_os (secure_bytes_fill p 24) s2) _
                              (λ x t bad _ _. inr (fits, ap (λ q. q.1.self) (sym bad) ∙ two))
                              λ nn s3 t3.
                                let three : s3.self ≡ counted s.self =
                                  ap (λ q. q.1.self) (sym t3) ∙ two in
                                pure_post Q (extract_enc_key s.self.index.enc_key) _ s3
                                  (λ _ _ _ _. inr (fits, three))
                                  λ key ek.
                                    pure_post Q
                                      (map_err_result from_aead_error
                                        (seal_with_aad p key dn plaintext (build_entry_aad k n)))
                                      _ s3 (λ _ _ _ _. inr (fits, three))
                                      λ dc sd.
                                        pure_post Q
                                          (map_err_result from_aead_error
                                            (seal_with_aad p key nn name (build_entry_aad k n)))
                                          _ s3 (λ _ _ _ _. inr (fits, three))
                                          λ nc sn. λ x bad. inr (
                                            fits,
                                            not_inserted k (new_entry n nn nc dn dc) s3 x bad
                                                ∙ three,
                                          )

-- A `rekey` that fails leaves the vault as it was.
rekey_failing :
    (p : Platform) (password : Bytes) (e : VaultError) (s s' : Owned Vault)
    → rekey p password s ≡ (err e, s')
    → s'.self ≡ s.self
unfolding rekey
rekey_failing p password e s s' h = subst (λ q. Q q) h run e refl
  where
    Q : Result VaultError (Unit {0}) × Owned Vault → Type 0
    Q q = (x : VaultError) → q.0 ≡ err x → q.1.self ≡ s.self

    run : Q (rekey p password s)
    run =
        own_post Q (on_os (fresh_vault p password) s) _
          (λ x t bad _ _. ap (λ q. q.1.self) (sym bad))
          λ new_vault s1 t1.
            let one : s1.self ≡ s.self = ap (λ q. q.1.self) (sym t1) in
            pure_post Q (extract_enc_key s1.self.index.enc_key) _ s1 (λ _ _ _ _. one)
              λ key ek.
                own_post Q
                  (on_os
                    (λ os.
                      let (r, t) =
                        rekey_entries p key s1.self.index.files
                          (record { self = new_vault; os = os }) in
                      (map_ok r t.self, t.os))
                    s1)
                  _ (λ x t bad _ _. ap (λ q. q.1.self) (sym bad) ∙ one) λ rekeyed s2 t2. λ x bad. cc

-- A `change_password` that fails, whatever the reason, leaves the vault as it was.
pub change_password_failing :
    (p : Platform) (current new : Bytes) (e : VaultError) (s s' : Owned Vault)
    → change_password p current new s ≡ (err e, s')
    → s'.self ≡ s.self
unfolding change_password
change_password_failing p current new e s s' h = subst (λ q. Q q) h run e refl
  where
    Q : Result VaultError (Unit {0}) × Owned Vault → Type 0
    Q q = (x : VaultError) → q.0 ≡ err x → q.1.self ≡ s.self

    run : Q (change_password p current new s)
    run =
        pure_post Q (validate_password new) _ s (λ _ _ _ _. refl)
          λ u1 o1.
            pure_post Q (verify_password p s.self current) _ s (λ _ _ _ _. refl)
              λ u2 o2.
                λ x bad. rekey_failing p new x s (rekey p new s).1 (λ i. (bad i, (rekey p new s).1))
