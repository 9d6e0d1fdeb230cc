-- ===== src/Vault/Reload.antt =====
-- `load` gives back the vault that `save` wrote.
use memseal.Prelude.{
  ℕ, zero, suc, ◌+◌, ◌≤◌, ◌≡◌, ◌≢◌, refl, sym, ap, ◌∙◌, true, false, some, List, [], ◌∷◌, length,
  take, ltb, arith, if◌then◌else◌, ◌&&◌,
}
use memseal.Constants.{max_header_json_len, max_vault_file_size, vault_version}
use memseal.Bytes.{Bytes, bytes_eq}
use memseal.Bytes.Equality.{bytes_eq_refl}
use memseal.Errors.{ok}
use memseal.Exec.{own_step}
use memseal.HashMap.{get}
use memseal.Platform.{Platform, IsSound, Os, called}
use memseal.Types.{Vault}
use memseal.Owned.{Owned}
use memseal.Header.{validate_header}
use memseal.Index.Valid.{IsValid}
use memseal.Vault.Export.{export}
use memseal.Vault.Exported.{export-Exported}
use memseal.Vault.Session.{open_vault}
use memseal.Vault.Reopen.{HasMemory, Unlocks, open_vault-export}
use memseal.Vault.Disk.{
  FilePath, place, read_found, read_limited, write_file_atomically, save, load,
}
use memseal.Fuzzing.{is_ok}
use memseal.Vault.Atomic.{tmp_path, get-write_file_atomically}

take_all {ℓ} : {A : Type ℓ} (n : ℕ) (xs : List A) → length xs ≤ n → take n xs ≡ xs
take_all zero [] h = refl
take_all zero (x ∷ xs) h = absurd (omega (arith, h))
take_all (suc n) [] h = refl
take_all (suc n) (x ∷ xs) h = ap (λ t. x ∷ t) (take_all n xs (omega (arith, h)))

module _ (p : Platform) where
  read_limited_whole :
      (limit : ℕ) (path : FilePath) (bytes : Bytes) (os : Os)
      → ((i : ℕ) → p.io i ≡ true)
      → get (place path) os.disk ≡ some bytes
      → length bytes ≤ limit
      → read_limited p limit path os ≡ (ok bytes, called (called os))
  unfolding read_limited
  read_limited_whole limit path bytes os io there fits =
      ap (λ found. read_found p limit found os) there
      ∙ (rw (io os.calls, io (os.calls + 1), take_all limit bytes fits) refl)

  load_of :
      (path : FilePath) (password bytes : Bytes) (os : Os)
      → ((i : ℕ) → p.io i ≡ true)
      → get (place path) os.disk ≡ some bytes
      → length bytes ≤ max_vault_file_size
      → (load p path password os).0 ≡ (open_vault p password bytes (called (called os))).0
  unfolding load
  load_of path password bytes os io there fits =
      let small : ltb max_vault_file_size (length bytes) ≡ false = ground arith in
      rw
        (
          read_limited_whole (max_vault_file_size + 1) path bytes os io there (omega (arith, fits)),
          small,
        )
        refl

  -- On a platform that keeps the laws of `IsSound`: when `save` of a vault succeeds, `load` of the
  -- same path with the password behind the subkeys returns the vault as `save` left it. The index
  -- is valid, the version is 2, `validate_header` accepts the header, its JSON is at most 4096
  -- bytes, memory can be allocated and locked, file operations succeed, and the target is named
  -- like no temporary file.
  pub load-save :
      (sound : IsSound p) (memory : HasMemory p) (path : FilePath) (password : Bytes)
      (s s' : Owned Vault)
      → ((i : ℕ) → p.io i ≡ true)
      → ((suffix : Bytes) → tmp_path path suffix ≢ place path)
      → IsValid s.self.index
      → s.self.header.version ≡ vault_version
      → validate_header s.self.header ≡ ok tt
      → ((json : Bytes)
          → p.header_to_json s.self.header ≡ some json
          → length json ≤ max_header_json_len)
      → Unlocks p password s.self
      → save p path s ≡ (ok tt, s')
      → (load p path password s'.os).0 ≡ ok s'.self
  unfolding save
  load-save sound memory path password s s' io apart valid current accepted short unlocks h =
      own_step G (export p s) _ h λ out s1 t1 q1.
        let run : write_file_atomically p path out s1.os ≡ (ok tt, s'.os) =
          λ i. ((q1 i).0, (q1 i).1.os) in
        let there : get (place path) s'.os.disk ≡ some out =
          ap (λ q. get (place path) q.1.disk) (sym run)
          ∙ (get-write_file_atomically p path out (place path) s1.os apart
              ∙ (ap
                    (λ q.
                      if is_ok q.0 && bytes_eq (place path) (place path)
                      then some out
                      else get (place path) s1.os.disk)
                    run
                  ∙ ap (λ b. if b then some out else get (place path) s1.os.disk)
                      (bytes_eq_refl (place path)))) in
        load_of path password out s'.os io there (export-Exported p out s s1 t1).size
        ∙ (open_vault-export p sound memory password out s s1 (called (called s'.os)) valid current
              accepted short unlocks t1
            ∙ ap (λ q. ok q.1.self) q1)
    where
      G : Type 0
      G = (load p path password s'.os).0 ≡ ok s'.self
