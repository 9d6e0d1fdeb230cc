-- ===== src/Vault/Live.antt =====
-- `store` and `export` of src/vault/facade.rs succeed, within their documented limits, on every vault
-- that a program reaches.
use memseal.Prelude.{◌+◌, ◌≤◌, ◌<◌, ◌≡◌, none, some, length}
use memseal.Constants.{
  u64_max, max_index_entries, max_entry_name_len, max_entry_data_size, max_vault_file_size,
}
use memseal.Bytes.{Bytes, AreBytes}
use memseal.Errors.{ok}
use memseal.HashMap.{get}
use memseal.Platform.{Platform, IsSound}
use memseal.Types.{Vault}
use memseal.Owned.{Owned}
use memseal.Codec.Encode.{encoded_total}
use memseal.Index.Keys.{hmac_key_for_name}
use memseal.Vault.Secrets.{retrieve}
use memseal.Vault.Store.{store}
use memseal.Vault.Export.{export}
use memseal.Vault.Reached.{Reached, Reached-IsValid}
use memseal.Vault.Typed.{Reached-IsTyped}
use memseal.Vault.Total.{Works, store-total}
use memseal.Vault.Produces.{export-total}

module _ (p : Platform) (sound : IsSound p) (works : Works p) where
  -- On a platform that keeps the laws of `IsSound` and works: on every vault that starts with `create`
  -- and goes through any sequence of calls, a `store` within its limits succeeds, and `retrieve` of the
  -- name then returns the plaintext. The limits: a name of at most 255 bytes, a plaintext of at most
  -- 64 MiB, a data counter below the largest `u64`, and an entry under the name or fewer than 1024
  -- entries.
  pub store-Reached :
      (name plaintext : Bytes) (s : Owned Vault)
      → Reached p s
      → AreBytes name
      → AreBytes plaintext
      → length name ≤ max_entry_name_len
      → length plaintext ≤ max_entry_data_size
      → s.self.index.data_nonce_counter < u64_max
      → ((k : Bytes)
          → hmac_key_for_name p s.self.index name ≡ ok k
          → get k s.self.index.files ≡ none
          → length s.self.index.files < max_index_entries)
      → ((store p name plaintext s).0 ≡ ok tt)
        × (retrieve p (store p name plaintext s).1.self name ≡ ok (some plaintext))
  store-Reached name plaintext s reached bn bp fits small below room =
      let typed = Reached-IsTyped p sound s reached in
      store-total p sound works name plaintext s bn bp typed.enc_key.1 fits small typed.enc_key.0
        below room

  -- On a platform that keeps the laws of `IsSound` and works: on every vault that starts with `create`
  -- and goes through any sequence of calls, `export` succeeds when the nonce counter is below the
  -- largest `u64`, the header encodes, and the header, the index and 44 bytes more are within 256 MiB.
  pub export-Reached :
      (json : Bytes) (s : Owned Vault)
      → Reached p s
      → s.self.index.nonce_counter < u64_max
      → p.header_to_json s.self.header ≡ some json
      → length json + encoded_total s.self.index + 44 ≤ max_vault_file_size
      → (out : Bytes) × ((export p s).0 ≡ ok out)
  export-Reached json s reached below j fits =
      let typed = Reached-IsTyped p sound s reached in
      export-total p sound works json s (Reached-IsValid p sound s reached).0 below typed.entries
        typed.enc_key.1 typed.enc_key.0 j fits
