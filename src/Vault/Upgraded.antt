-- ===== src/Vault/Upgraded.antt =====
-- What `open` makes of a vault of format version 1.
use memseal.Prelude.{◌≡◌, refl, sym, ap, ◌∙◌, subst}
use memseal.Bytes.{Bytes}
use memseal.Errors.{Result, ok, VaultError}
use memseal.HashMap.{HashMap}
use memseal.Platform.{Platform, IsSound, Os}
use memseal.Types.{Vault}
use memseal.Owned.{Owned}
use memseal.Index.Valid.{IsValid}
use memseal.Vault.Keys.{extract_enc_key}
use memseal.Vault.Session.{map_ok, rekey, open_envelope, open_vault}
use memseal.Vault.Keeps.{fresh_vault-IsValid}
use memseal.Vault.Reached.{rekey_entries-IsValid}
use memseal.Vault.Rekeyed.{Reads, AllApart, Holds, Rekeyed-Holds}
use memseal.Vault.Changed.{Rekeyed, rekey-Rekeyed, map_ok_run}
use memseal.Vault.Opens.{Opens, Rekeyed-Opens}

module _ (p : Platform) where
  -- A vault of version 1 is re-keyed before it is returned.
  open_vault-Rekeyed :
      (password bytes : Bytes) (old v : Vault) (os at os' : Os)
      → open_envelope p password bytes os ≡ (ok old, at)
      → old.header.version ≡ 1
      → open_vault p password bytes os ≡ (ok v, os')
      → Rekeyed p password (record { self = old; os = at }) v
  unfolding open_vault
  open_vault-Rekeyed password bytes old v os at os' opened version h =
      let s : Owned Vault = record { self = old; os = at } in
      let run : ◌≡◌ {A = Result VaultError Vault × Os}
          (map_ok (rekey p password s).0 (rekey p password s).1.self, (rekey p password s).1.os)
          (ok v, os') =
        sym (rw (opened, version) refl) ∙ h in
      rekey-Rekeyed p password s (record { self = v; os = os' })
        (map_ok_run p (rekey p password s) v os' run)

  -- On a platform that keeps the laws of `IsSound`: when `open` of a file of format version 1
  -- succeeds, the entries of the file hold a list of names and plaintexts under its encryption key,
  -- and these names have different HMAC keys in the vault that is returned, then this vault has
  -- version 2 and a header within its limits, the password gives its subkeys, its index is valid, and
  -- `retrieve` returns every plaintext under its name.
  pub open_vault-Holds :
      (sound : IsSound p) (password bytes old_key : Bytes) (plain : HashMap Bytes) (old v : Vault)
      (os at os' : Os)
      → open_envelope p password bytes os ≡ (ok old, at)
      → old.header.version ≡ 1
      → extract_enc_key old.index.enc_key ≡ ok old_key
      → Reads p old_key old.index.files plain
      → AllApart p v.index plain
      → open_vault p password bytes os ≡ (ok v, os')
      → Opens p password v × IsValid v.index × Holds p v plain
  open_vault-Holds sound password bytes old_key plain old v os at os' opened version extracted reads
        apart h =
      let s : Owned Vault = record { self = old; os = at } in
      let d = open_vault-Rekeyed password bytes old v os at os' opened version h in
      let from : Owned Vault = record { self = d.new_vault; os = d.made_at } in
      let to : Owned Vault = record { self = v; os = d.done_at } in
      (
        Rekeyed-Opens p password s v d,
        subst (λ (t : Owned Vault). IsValid t.self.index) (ap (λ q. q.1) d.run)
            (rekey_entries-IsValid p sound d.old_key old.index.files from
              (fresh_vault-IsValid p password d.new_vault at d.made_at d.made)),
        Rekeyed-Holds p sound password old_key plain s v extracted reads apart d,
      )
