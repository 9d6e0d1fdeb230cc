-- ===== src/Vault/Remove.antt =====
-- `Vault::remove` of src/vault/facade.rs.
use memseal.Prelude.{Bool}
use memseal.Bytes.{Bytes}
use memseal.Errors.{VaultError, ok, from_index_error, map_err}
use memseal.Exec.{Exec, ◌>>=◌, gets, lift, pure}
use memseal.Platform.{Platform}
use memseal.Types.{Vault}
use memseal.Codec.Decode.{is_some}
use memseal.Index.{remove_by_key}
use memseal.Index.Keys.{hmac_key_for_name}

module _ (p : Platform) where
  unfoldable pub remove : Bytes → Exec Vault VaultError Bool
  remove name = do
    vault ← gets (λ v. v)
    hmac_key ← lift (map_err from_index_error (hmac_key_for_name p vault.index name))
    entry ← λ v.
        let (removed, index) = remove_by_key hmac_key v.index in
        (ok removed, record v { index = index })
    pure (is_some entry)
