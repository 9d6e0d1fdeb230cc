-- ===== src/Vault/Total.antt =====
-- `Vault::store` of src/vault/facade.rs succeeds within its documented limits, when the platform does.
use memseal.Prelude.{ℕ, ◌+◌, ◌≤◌, ◌<◌, ◌≡◌, refl, ap, false, none, some, length, ltb, leb, arith}
use memseal.Constants.{
  u64_max, max_index_entries, max_entry_name_len, max_entry_data_size, max_vault_file_size,
}
use memseal.Bytes.{Bytes, AreBytes}
use memseal.Errors.{ok, from_index_error, map_err as map_err_result}
use memseal.HashMap.{get}
use memseal.Platform.{Platform, IsSound, Os, called}
use memseal.Types.{IndexEntry, VaultIndex, Vault}
use memseal.Owned.{Owned}
use memseal.Crypto.Random.{secure_bytes_fill}
use memseal.Crypto.Aead.{seal_with_aad}
use memseal.Index.{next_data_nonce_counter, insert_by_key}
use memseal.Index.Keys.{hmac_key_for_name}
use memseal.Vault.Keys.{build_entry_aad, extract_enc_key}
use memseal.Vault.Store.{store}
use memseal.Vault.Stored.{new_entry}
use memseal.Vault.Retrieve.{retrieve-store}
use memseal.Vault.Secrets.{retrieve}

module _ (p : Platform) where
  -- Random bytes are there, HMAC keys can be computed, and texts up to 256 MiB can be sealed under keys
  -- of 32 bytes and nonces of 24.
  pub record Works : Type 0 where
    pub fills : (i n : ℕ) → (b : Bytes) × (p.try_fill_bytes i n ≡ some b)
    pub keys :
        (index : VaultIndex) (name : Bytes)
        → AreBytes name
        → (k : Bytes) × (hmac_key_for_name p index name ≡ ok k)
    pub seals :
        (k n t a : Bytes)
        → AreBytes k
        → AreBytes t
        → length k ≡ 32
        → length n ≡ 24
        → length t ≤ max_vault_file_size
        → (c : Bytes) × (seal_with_aad p k n t a ≡ ok c)

  pub fill_runs :
      (works : Works) (os : Os)
      → (b : Bytes) × (p.try_fill_bytes os.calls 24 ≡ some b)
        × (secure_bytes_fill p 24 os ≡ (ok b, called os))
  unfolding secure_bytes_fill
  fill_runs works os = let (b, there) = works.fills os.calls 24 in (b, there, rw there refl)

  counter_runs :
      (index : VaultIndex)
      → index.data_nonce_counter < u64_max
      → next_data_nonce_counter index ≡ (
        ok index.data_nonce_counter,
        record index { data_nonce_counter = index.data_nonce_counter + 1 },
      )
  unfolding next_data_nonce_counter
  counter_runs index h =
      let below : leb u64_max index.data_nonce_counter ≡ false = ground arith in rw below refl

  insert_runs :
      (k : Bytes) (e : IndexEntry) (index : VaultIndex)
      → (get k index.files ≡ none → length index.files < max_index_entries)
      → (insert_by_key k e index).0 ≡ ok tt
  unfolding insert_by_key
  insert_runs k e index room = ground (arith, room)

  pub extract_runs :
      (v : Vault)
      → length v.index.enc_key.region ≡ 32
      → extract_enc_key v.index.enc_key ≡ ok v.index.enc_key.region
  unfolding extract_enc_key
  extract_runs v h = ground arith

  store_runs :
      {k dn nn dc nc : Bytes} (name plaintext : Bytes) (s : Owned Vault)
      → let index = record s.self.index {
        data_nonce_counter = s.self.index.data_nonce_counter + 1;
      } in
        let n = s.self.index.data_nonce_counter in
        ltb max_entry_name_len (length name) ≡ false
        → ltb max_entry_data_size (length plaintext) ≡ false
        → hmac_key_for_name p s.self.index name ≡ ok k
        → next_data_nonce_counter s.self.index ≡ (ok n, index)
        → secure_bytes_fill p 24 s.os ≡ (ok dn, called s.os)
        → secure_bytes_fill p 24 (called s.os) ≡ (ok nn, called (called s.os))
        → extract_enc_key s.self.index.enc_key ≡ ok s.self.index.enc_key.region
        → seal_with_aad p s.self.index.enc_key.region dn plaintext (build_entry_aad k n) ≡ ok dc
        → seal_with_aad p s.self.index.enc_key.region nn name (build_entry_aad k n) ≡ ok nc
        → (insert_by_key k (new_entry n nn nc dn dc) index).0 ≡ ok tt
        → (store p name plaintext s).0 ≡ ok tt
  unfolding store
  store_runs name plaintext s t1 t2 hk c f1 f2 ek sd sn ins =
      rw (t1, t2, hk, c, f1, f2, ek, sd, sn) (ap (map_err_result from_index_error) ins)

  -- On a platform that keeps the laws of `IsSound` and works, a `store` within its limits succeeds, and
  -- `retrieve` of the name then returns the plaintext. The limits: a name of at most 255 bytes, a
  -- plaintext of at most 64 MiB, an encryption key of 32 bytes, a data counter below the largest `u64`,
  -- and an entry under the name or fewer than 1024 entries.
  pub store-total :
      (sound : IsSound p) (works : Works) (name plaintext : Bytes) (s : Owned Vault)
      → AreBytes name
      → AreBytes plaintext
      → AreBytes s.self.index.enc_key.region
      → length name ≤ max_entry_name_len
      → length plaintext ≤ max_entry_data_size
      → length s.self.index.enc_key.region ≡ 32
      → s.self.index.data_nonce_counter < u64_max
      → ((k : Bytes)
          → hmac_key_for_name p s.self.index name ≡ ok k
          → get k s.self.index.files ≡ none
          → length s.self.index.files < max_index_entries)
      → ((store p name plaintext s).0 ≡ ok tt)
        × (retrieve p (store p name plaintext s).1.self name ≡ ok (some plaintext))
  store-total sound works name plaintext s bn bp bk fits small k32 below room =
      let (k, hk) = works.keys s.self.index name bn in
      let (dn, d, f1) = fill_runs works s.os in
      let (nn, e, f2) = fill_runs works (called s.os) in
      let key = s.self.index.enc_key.region in
      let aad = build_entry_aad k s.self.index.data_nonce_counter in
      let (dc, sd) =
        works.seals key dn plaintext aad bk bp k32 (sound.fill_length _ 24 dn d)
          (omega (arith, small)) in
      let (nc, sn) =
        works.seals key nn name aad bk bn k32 (sound.fill_length _ 24 nn e) (omega (arith, fits)) in
      let run =
        store_runs name plaintext s (ground arith) (ground arith) hk
          (counter_runs s.self.index below) f1 f2 (extract_runs s.self k32) sd sn
          (insert_runs k _ _ (room k hk)) in
      (
        run,
        retrieve-store p sound name plaintext s (store p name plaintext s).1
            (λ i. (run i, (store p name plaintext s).1)),
      )
