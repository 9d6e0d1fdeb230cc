-- ===== src/Vault/Reached.antt =====
-- The vaults that a program can reach: a new vault, and any sequence of calls on it, each of which may
-- succeed or fail.
use memseal.Prelude.{◌≡◌, ap, subst, [], ◌∷◌}
use memseal.Bytes.{Bytes}
use memseal.Errors.{Result, ok, VaultError}
use memseal.Exec.{pure_step, pure_post, own_post}
use memseal.HashMap.{HashMap}
use memseal.Platform.{Platform, IsSound, Os}
use memseal.Types.{IndexEntry, Vault}
use memseal.Owned.{Owned, on_os}
use memseal.Index.Valid.{IsValid, encode_index-total}
use memseal.Codec.Encode.{encode_index}
use memseal.Vault.Keys.{extract_enc_key, validate_password, verify_password}
use memseal.Vault.Secrets.{old_plaintexts}
use memseal.Vault.Store.{store}
use memseal.Vault.Remove.{remove}
use memseal.Vault.Export.{export}
use memseal.Vault.Session.{fresh_vault, create, rekey_entries, map_ok, rekey, change_password}
use memseal.Vault.Disk.{FilePath, save}
use memseal.Vault.Invariant.{store-IsValid, remove-IsValid}
use memseal.Vault.Keeps.{export-IsValid, save-IsValid, fresh_vault-IsValid, map_ok-eq-ok}

-- One call of a method that changes the vault, with the state that it leaves.
pub data Step (p : Platform) : Owned Vault → Owned Vault → Type 0 where
  stored : (name plaintext : Bytes) (s : Owned Vault) → Step p s (store p name plaintext s).1
  removed :
      (name : Bytes) (s : Owned Vault) → Step p s (record s { self = (remove p name s.self).1 })
  exported : (s : Owned Vault) → Step p s (export p s).1
  saved : (path : FilePath) (s : Owned Vault) → Step p s (save p path s).1
  changed : (current new : Bytes) (s : Owned Vault) → Step p s (change_password p current new s).1

pub data Reached (p : Platform) : Owned Vault → Type 0 where
  created :
      (password : Bytes) (v : Vault) (os os' : Os)
      → create p password os ≡ (ok v, os')
      → Reached p (record { self = v; os = os' })
  then : (s t : Owned Vault) → Reached p s → Step p s t → Reached p t

module _ (p : Platform) (sound : IsSound p) where
  pub rekey_entries-IsValid :
      (old_key : Bytes) (files : HashMap IndexEntry) (s : Owned Vault)
      → IsValid s.self.index
      → IsValid (rekey_entries p old_key files s).1.self.index
  unfolding rekey_entries
  rekey_entries-IsValid old_key [] s valid = valid
  rekey_entries-IsValid old_key ((k, e) ∷ files) s valid =
      pure_post Q (old_plaintexts p old_key k e) _ s (λ _ _. valid)
        λ nt o1.
          let stored_valid = store-IsValid p sound nt.0 nt.1 s valid in
          own_post Q (store p nt.0 nt.1 s) _ (λ x t h. subst Q h stored_valid)
            λ u t h. rekey_entries-IsValid old_key files t (subst Q h stored_valid)
    where
      Q : Result VaultError (Unit {0}) × Owned Vault → Type 0
      Q q = IsValid q.1.self.index

  rekey-IsValid :
      (password : Bytes) (s : Owned Vault)
      → IsValid s.self.index
      → IsValid (rekey p password s).1.self.index
  unfolding rekey
  rekey-IsValid password s valid =
      own_post Q (on_os (fresh_vault p password) s) _
        (λ x t h. subst (λ (v : Vault). IsValid v.index) (ap (λ q. q.1.self) h) valid)
        λ new_vault s1 t1.
          let same = subst (λ (v : Vault). IsValid v.index) (ap (λ q. q.1.self) t1) valid in
          let new_valid =
            fresh_vault-IsValid p password new_vault s.os s1.os (λ i. ((t1 i).0, (t1 i).1.os)) in
          pure_post Q (extract_enc_key s1.self.index.enc_key) _ s1 (λ _ _. same)
            λ key o2.
              own_post Q (on_os (entries new_vault key s1.self.index.files) s1) _
                (λ x t h. subst (λ (v : Vault). IsValid v.index) (ap (λ q. q.1.self) h) same)
                λ rekeyed s2 t2.
                  subst (λ (v : Vault). IsValid v.index)
                    (map_ok-eq-ok
                      (rekey_entries p key s1.self.index.files
                        (record { self = new_vault; os = s1.os })).0
                      _ rekeyed (ap (λ q. q.0) t2))
                    (rekey_entries-IsValid key s1.self.index.files
                      (record { self = new_vault; os = s1.os }) new_valid)
    where
      Q : Result VaultError (Unit {0}) × Owned Vault → Type 0
      Q q = IsValid q.1.self.index

      entries : Vault → Bytes → HashMap IndexEntry → Os → Result VaultError Vault × Os
      entries new_vault key files os =
          let (r, t) = rekey_entries p key files (record { self = new_vault; os = os }) in
          (map_ok r t.self, t.os)

  change_password-IsValid :
      (current new : Bytes) (s : Owned Vault)
      → IsValid s.self.index
      → IsValid (change_password p current new s).1.self.index
  unfolding change_password
  change_password-IsValid current new s valid =
      pure_post Q (validate_password new) _ s (λ _ _. valid)
        λ u1 o1.
          pure_post Q (verify_password p s.self current) _ s (λ _ _. valid)
            λ u2 o2. rekey-IsValid new s valid
    where
      Q : Result VaultError (Unit {0}) × Owned Vault → Type 0
      Q q = IsValid q.1.self.index

  create-IsValid :
      (password : Bytes) (v : Vault) (os os' : Os)
      → create p password os ≡ (ok v, os')
      → IsValid v.index
  unfolding create
  create-IsValid password v os os' h =
      pure_step (IsValid v.index) (validate_password password) _ h
        λ u o1 q1. fresh_vault-IsValid p password v os os' q1

  Step-IsValid : (s t : Owned Vault) → Step p s t → IsValid s.self.index → IsValid t.self.index
  Step-IsValid _ _ (stored name plaintext s) valid = store-IsValid p sound name plaintext s valid
  Step-IsValid _ _ (removed name s) valid = remove-IsValid p sound name s.self valid
  Step-IsValid _ _ (exported s) valid = export-IsValid p s valid
  Step-IsValid _ _ (saved path s) valid = save-IsValid p path s valid
  Step-IsValid _ _ (changed current new s) valid = change_password-IsValid current new s valid

  -- On a platform that keeps the laws of `IsSound`: in every vault that starts with `create` and goes
  -- through any sequence of `store`, `remove`, `export`, `save` and `change_password`, each of which may
  -- succeed or fail, the index is valid, and `encode_index` succeeds on it.
  pub Reached-IsValid :
      (s : Owned Vault)
      → Reached p s
      → IsValid s.self.index × ((out : Bytes) × (encode_index s.self.index ≡ ok out))
  Reached-IsValid s reached =
      let valid = by_steps s reached in (valid, encode_index-total s.self.index valid)
    where
      by_steps : (t : Owned Vault) → Reached p t → IsValid t.self.index
      by_steps _ (created password v os os' h) = create-IsValid password v os os' h
      by_steps _ (then s t before step) = Step-IsValid s t step (by_steps s before)
