-- ===== src/Vault/Opens.antt =====
-- The password that opens a vault, through the calls of src/vault/facade.rs.
use memseal.Prelude.{◌≡◌, refl, sym, ap, ◌∙◌, subst}
use memseal.Bytes.{Bytes}
use memseal.Errors.{ok, from_index_error, random, from_random_error, locked_memory, ok-injective}
use memseal.Exec.{pure_step, own_step, state_step}
use memseal.Platform.{Platform, Os}
use memseal.Types.{VaultHeader, VaultIndex, Vault}
use memseal.Owned.{Owned}
use memseal.Crypto.Random.{secure_bytes_fill}
use memseal.Secret.{secret_new}
use memseal.Header.{generate, validate_header}
use memseal.Index.{from_master_key}
use memseal.Index.Keys.{derive_subkeys}
use memseal.Vault.Keys.{derive_master_key}
use memseal.Vault.Session.{fresh_vault}
use memseal.Vault.Changed.{Rekeyed}
use memseal.Vault.Reopen.{Unlocks}
use memseal.Vault.Fresh.{secret_new-region}
use memseal.Vault.Lock.{IsSameLock, rekey_entries-IsSameLock}

module _ (p : Platform) where
  -- The header is of the current version and within its limits, and the password gives the subkeys.
  pub record Opens (password : Bytes) (v : Vault) : Type 0 where
    pub version : v.header.version ≡ 2
    pub accepted : validate_header v.header ≡ ok tt
    pub unlocks : Unlocks p password v

  pub Opens-same :
      (password : Bytes) (v w : Vault) → IsSameLock v w → Opens password v → Opens password w
  Opens-same password v w same d = record {
    version = ap (λ h. h.version) same.header ∙ d.version;
    accepted = ap validate_header same.header ∙ d.accepted;
    unlocks = record {
      master_key = d.unlocks.master_key;
      derived = ap (derive_master_key p password) same.header ∙ d.unlocks.derived;
      subkeys =
          ap (λ (h : VaultHeader). derive_subkeys p d.unlocks.master_key h.kdf_salt) same.header
          ∙ (d.unlocks.subkeys
              ∙ ap ok (λ i. ((sym same.enc_key i).region, (sym same.hmac_key i).region)));
    };
  }

  generate-accepted :
      (header : VaultHeader) (os os' : Os)
      → generate p os ≡ (ok header, os')
      → (header.version ≡ 2) × (validate_header header ≡ ok tt)
  unfolding generate validate_header
  generate-accepted header os os' h =
      state_step (P header) from_random_error (secure_bytes_fill p 16 os) _ h
        λ salt os1 t1 q1. subst P (ok-injective (ap (λ q. q.0) q1)) (refl, refl)
    where
      P : VaultHeader → Type 0
      P h = (h.version ≡ 2) × (validate_header h ≡ ok tt)

  from_master_key-derived :
      (master_key salt : Bytes) (index : VaultIndex) (os os' : Os)
      → from_master_key p master_key salt os ≡ (ok index, os')
      → derive_subkeys p master_key salt ≡ ok (index.enc_key.region, index.hmac_key.region)
  unfolding from_master_key
  from_master_key-derived master_key salt index os os' h =
      pure_step G (derive_subkeys p master_key salt) _ h λ subs o1 q1.
        state_step G random (secure_bytes_fill p 24 os) _ q1 λ nonce os2 t2 q2.
          state_step G locked_memory (secret_new p subs.0 os2) _ q2 λ enc_key os3 t3 q3.
            state_step G locked_memory (secret_new p subs.1 os3) _ q3 λ hmac_key os4 t4 q4.
              let made = ok-injective (ap (λ q. q.0) q4) in
              let enc =
                sym (secret_new-region p subs.0 enc_key os2 os3 t3)
                ∙ ap (λ (i : VaultIndex). i.enc_key.region) made in
              let hmac =
                sym (secret_new-region p subs.1 hmac_key os3 os4 t4)
                ∙ ap (λ (i : VaultIndex). i.hmac_key.region) made in
              o1 ∙ ap ok (λ i. (enc i, hmac i))
    where
      G : Type 0
      G = derive_subkeys p master_key salt ≡ ok (index.enc_key.region, index.hmac_key.region)

  pub fresh_vault-Opens :
      (password : Bytes) (v : Vault) (os os' : Os)
      → fresh_vault p password os ≡ (ok v, os')
      → Opens password v
  unfolding fresh_vault
  fresh_vault-Opens password v os os' h =
      own_step (Opens password v) (generate p os) _ h λ header os1 t1 q1.
        pure_step (Opens password v) (derive_master_key p password header) _ q1 λ master_key o2 q2.
          state_step (Opens password v) from_index_error
            (from_master_key p master_key header.kdf_salt os1) _ q2
            λ index os3 t3 q3.
              let (version, accepted) = generate-accepted header os os1 t1 in
              subst (Opens password) (ok-injective (ap (λ q. q.0) q3)) (record {
                version = version;
                accepted = accepted;
                unlocks = record {
                  master_key = master_key;
                  derived = o2;
                  subkeys = from_master_key-derived master_key header.kdf_salt index os1 os3 t3;
                };
              })

  -- After `rekey` it is the new password.
  pub Rekeyed-Opens :
      (password : Bytes) (s : Owned Vault) (v' : Vault)
      → Rekeyed p password s v'
      → Opens password v'
  Rekeyed-Opens password s v' d =
      Opens-same password d.new_vault v'
        (rekey_entries-IsSameLock p d.old_key s.self.index.files
          (record { self = d.new_vault; os = d.made_at }) (record { self = v'; os = d.done_at })
          d.run)
        (fresh_vault-Opens password d.new_vault s.os d.made_at d.made)
