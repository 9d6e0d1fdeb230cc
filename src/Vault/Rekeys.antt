-- ===== src/Vault/Rekeys.antt =====
-- `create` and `change_password` of src/vault/facade.rs succeed within their limits, when the platform
-- works.
use memseal.Prelude.{ℕ, ◌≤◌, ◌≡◌, refl, true, false, some, [], length, ◌==◌}
use memseal.Constants.{max_entry_name_len, max_entry_data_size}
use memseal.Bytes.{Bytes, AreBytes}
use memseal.Errors.{ok}
use memseal.Platform.{Platform, IsSound, Os, called}
use memseal.Types.{Vault}
use memseal.Crypto.Random.{secure_bytes_fill}
use memseal.Header.{generate, new}
use memseal.Index.{from_master_key}
use memseal.Index.Keys.{derive_subkeys, encryption_subkey_info, hmac_subkey_info}
use memseal.Index.Subkeys.{derive_subkeys-IsSubkey}
use memseal.Vault.Keys.{derive_master_key}
use memseal.Vault.Session.{fresh_vault}
use memseal.Vault.Reopen.{HasMemory, secret_new_succeeds}
use memseal.Vault.Total.{Works}

-- Argon2id accepts the parameters of a new header, and HKDF fills 32 bytes.
pub record Derives (p : Platform) : Type 0 where
  pub params : p.argon2_params 131072 4 1 32 ≡ true
  pub master :
      (password salt : Bytes) → (k : Bytes) × (p.argon2id password salt 131072 4 1 32 ≡ some k)
  pub subkey : (s m i : Bytes) → (k : Bytes) × (p.hkdf s m i 32 ≡ some k)

-- A name and a plaintext within the limits of `store`.
abbrev pub Fits : Bytes × Bytes → Type 0
Fits q =
    AreBytes q.0
    × AreBytes q.1
    × (length q.0 ≤ max_entry_name_len)
    × (length q.1 ≤ max_entry_data_size)

module _ (p : Platform) (sound : IsSound p) (works : Works p) (memory : HasMemory p)
    (derives : Derives p) where
  filled :
      (n : ℕ) (os : Os)
      → (n == 0) ≡ false
      → (b : Bytes) × (secure_bytes_fill p n os ≡ (ok b, called os))
  unfolding secure_bytes_fill
  filled n os positive = let (b, there) = works.fills os.calls n in (b, rw (positive, there) refl)

  new_vault_runs :
      {salt mk enc hmac nonce : Bytes} (password : Bytes) (os : Os)
      → secure_bytes_fill p 16 os ≡ (ok salt, called os)
      → derive_master_key p password (new salt 4 131072 32) ≡ ok mk
      → derive_subkeys p mk salt ≡ ok (enc, hmac)
      → secure_bytes_fill p 24 (called os) ≡ (ok nonce, called (called os))
      → length enc ≡ 32
      → length hmac ≡ 32
      → (v : Vault) × ((os' : Os) × (fresh_vault p password os ≡ (ok v, os')))
  unfolding fresh_vault generate from_master_key
  new_vault_runs {salt} {mk} {enc} {hmac} {nonce} password os f1 mk_ok subs f2 e32 h32 = (
    record {
      header = new salt 4 131072 32;
      index = record {
        nonce = nonce;
        nonce_counter = 0;
        data_nonce_counter = 0;
        files = [];
        enc_key = record { region = enc };
        hmac_key = record { region = hmac };
      };
    },
    (
      called (called (called (called (called (called os))))),
      rw
          (
            f1,
            mk_ok,
            subs,
            f2,
            secret_new_succeeds p enc (called (called os)) memory e32,
            secret_new_succeeds p hmac (called (called (called (called os)))) memory h32,
          )
          refl,
    ),
  )

  master_runs :
      (password salt mk : Bytes)
      → p.argon2id password salt 131072 4 1 32 ≡ some mk
      → derive_master_key p password (new salt 4 131072 32) ≡ ok mk
  unfolding derive_master_key
  master_runs password salt mk h = rw (derives.params, h) refl

  subkeys_run :
      (mk salt enc hmac : Bytes)
      → p.hkdf salt mk encryption_subkey_info 32 ≡ some enc
      → p.hkdf salt mk hmac_subkey_info 32 ≡ some hmac
      → derive_subkeys p mk salt ≡ ok (enc, hmac)
  unfolding derive_subkeys
  subkeys_run mk salt enc hmac h g = rw (h, g) refl

  pub fresh_vault-total :
      (password : Bytes) (os : Os)
      → (v : Vault) × ((os' : Os) × (fresh_vault p password os ≡ (ok v, os')))
  fresh_vault-total password os =
      let (salt, f1) = filled 16 os refl in
      let (mk, mk_some) = derives.master password salt in
      let (enc, enc_some) = derives.subkey salt mk encryption_subkey_info in
      let (hmac, hmac_some) = derives.subkey salt mk hmac_subkey_info in
      let (nonce, f2) = filled 24 (called os) refl in
      let subs = subkeys_run mk salt enc hmac enc_some hmac_some in
      let (enc_ok, hmac_ok) = derive_subkeys-IsSubkey p sound mk salt enc hmac subs in
      new_vault_runs password os f1 (master_runs password salt mk mk_some) subs f2 enc_ok.0
        hmac_ok.0
