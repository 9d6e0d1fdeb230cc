-- ===== src/Index/Keys.antt =====
-- `derive_subkeys` and `hmac_key_for_name` of src/vault/vault_index.rs.
use memseal.Prelude.{[], ◌∷◌}
use memseal.Constants.{subkey_len}
use memseal.Bytes.{Bytes}
use memseal.Errors.{
  Result, ok, ◌>>=◌, IndexError, crypto, hkdf_enc_failed, hkdf_hmac_failed, hmac_key_invalid,
  hmac_failed,
}
use memseal.Platform.{Platform}
use memseal.Types.{VaultIndex}
use memseal.Codec.Hex.{key_to_hex}
use memseal.Crypto.Random.{ok_or}
use memseal.Secret.{with_bytes}

-- b"MEMSEAL_SUBKEY_ENC_v1"
abbrev pub encryption_subkey_info : Bytes
encryption_subkey_info =
    77 ∷ 69 ∷ 77 ∷ 83 ∷ 69 ∷ 65 ∷ 76 ∷ 95 ∷ 83 ∷ 85 ∷ 66 ∷ 75 ∷ 69 ∷ 89 ∷ 95 ∷ 69 ∷ 78 ∷ 67 ∷ 95
    ∷ 118 ∷ 49 ∷ []

-- b"MEMSEAL_SUBKEY_HMAC_v1"
abbrev pub hmac_subkey_info : Bytes
hmac_subkey_info =
    77 ∷ 69 ∷ 77 ∷ 83 ∷ 69 ∷ 65 ∷ 76 ∷ 95 ∷ 83 ∷ 85 ∷ 66 ∷ 75 ∷ 69 ∷ 89 ∷ 95 ∷ 72 ∷ 77 ∷ 65 ∷ 67
    ∷ 95 ∷ 118 ∷ 49 ∷ []

module _ (p : Platform) where
  -- The two output buffers are the pair that is returned.
  unfoldable pub derive_subkeys : Bytes → Bytes → Result IndexError (Bytes × Bytes)
  derive_subkeys master_key salt = do
    enc_out ←
        ok_or (p.hkdf salt master_key encryption_subkey_info subkey_len) (crypto hkdf_enc_failed)
    hmac_out ← ok_or (p.hkdf salt master_key hmac_subkey_info subkey_len) (crypto hkdf_hmac_failed)
    ok (enc_out, hmac_out)

  unfoldable pub hmac_key_for_name : VaultIndex → Bytes → Result IndexError Bytes
  hmac_key_for_name index plaintext_name = do
    tag ← with_bytes index.hmac_key λ key_bytes. do
      hmac_key ← ok_or (p.hmac_key_from_slice key_bytes) (crypto hmac_key_invalid)
      ok_or (p.hmac hmac_key plaintext_name) (crypto hmac_failed)
    ok (key_to_hex tag)
