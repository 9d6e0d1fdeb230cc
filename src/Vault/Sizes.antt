-- ===== src/Vault/Sizes.antt =====
-- What a stored secret costs in the file of src/vault/facade.rs: 128 bytes and the lengths of its name
-- and its plaintext.
use memseal.Prelude.{
  ℕ, ◌+◌, ◌≤◌, ◌<◌, ◌≡◌, refl, ap, Bool, true, some, [], ◌∷◌, length, take, drop, ltb, false,
  length-drop, arith, if◌then◌else◌,
}
use memseal.Constants.{max_vault_file_size, u64_max}
use memseal.Bytes.{Bytes}
use memseal.Errors.{
  Result, ok, err, entry_too_short_for_nonce, VaultError, >>=-eq-ok, ok-injective, map_err,
  map_err-eq-ok, from_aead_error, corrupted_data, invalid_entry_name, decryption_failed, fail_if,
  ciphertext_too_short,
}
use memseal.HashMap.{HashMap}
use memseal.Platform.{Platform, IsSound}
use memseal.Types.{IndexEntry, Vault}
use memseal.Owned.{Owned}
use memseal.Utf8.{from_utf8}
use memseal.Codec.Encode.{entries_total, encoded_total}
use memseal.Crypto.Random.{ok_or}
use memseal.Crypto.Aead.{open_with_aad, ok_or-eq-ok}
use memseal.Vault.Keys.{split_nonce, build_entry_aad}
use memseal.Vault.Secrets.{old_plaintexts}
use memseal.Vault.Export.{export}
use memseal.Vault.Rekeyed.{Reads}
use memseal.Vault.Reached.{Reached}
use memseal.Vault.Total.{Works}
use memseal.Vault.Live.{export-Reached}

-- The bytes that names and plaintexts take up in an index.
abbrev stored_size : HashMap Bytes → ℕ
stored_size [] = 0
stored_size ((name, plaintext) ∷ plain) = 128 + length name + length plaintext + stored_size plain

module _ (p : Platform) (sound : IsSound p) where
  opened_length :
      (key nonce c aad t : Bytes)
      → open_with_aad p key nonce c aad ≡ ok t
      → length c ≡ length t + 16
  unfolding open_with_aad
  opened_length key nonce c aad t h =
      let (_, _, h1) = >>=-eq-ok (fail_if (ltb (length c) 16) ciphertext_too_short) _ h in
      let (k, _, h2) = >>=-eq-ok (ok_or (p.secret_key_from_slice key) decryption_failed) _ h1 in
      let (n, _, h3) = >>=-eq-ok (ok_or (p.nonce_from_slice nonce) decryption_failed) _ h2 in
      sound.open_length k n t aad c (ok_or-eq-ok (p.aead_open k n c aad) decryption_failed t h3)

  split_length :
      (blob nonce c : Bytes) → split_nonce blob ≡ ok (nonce, c) → length blob ≡ 24 + length c
  unfolding split_nonce
  split_length blob nonce c h = by_test (ltb (length blob) 24) refl h
    where
      parts : Result VaultError (Bytes × Bytes)
      parts = ok (take 24 blob, drop 24 blob)

      by_test :
          (b : Bool)
          → ltb (length blob) 24 ≡ b
          → (if b then err (corrupted_data entry_too_short_for_nonce) else parts) ≡ ok (nonce, c)
          → length blob ≡ 24 + length c
      by_test true t e = cc
      by_test false t e =
          let back = ap (λ (q : Bytes × Bytes). length q.1) (ok-injective e) in
          ground (arith, back, length-drop 24 blob)

  from_utf8-eq : (b n : Bytes) → from_utf8 b ≡ some n → n ≡ b
  unfolding from_utf8
  from_utf8-eq b n h = ground arith

  -- The two ciphertexts of an entry.
  entry_lengths :
      (key k n t : Bytes) (e : IndexEntry)
      → old_plaintexts p key k e ≡ ok (n, t)
      → (length e.encrypted_name ≡ 40 + length n) × (length e.encrypted_data ≡ 40 + length t)
  unfolding old_plaintexts
  entry_lengths key k n t e h =
      let aad = build_entry_aad k e.data_counter in
      let (a, name_split, h1) = >>=-eq-ok (split_nonce e.encrypted_name) _ h in
      let (b, name_opened, h2) =
        >>=-eq-ok (map_err from_aead_error (open_with_aad p key a.0 a.1 aad)) _ h1 in
      let (c, text, h3) =
        >>=-eq-ok (ok_or (from_utf8 b) (corrupted_data invalid_entry_name)) _ h2 in
      let (d, data_split, h4) = >>=-eq-ok (split_nonce e.encrypted_data) _ h3 in
      let (u, data_opened, h5) =
        >>=-eq-ok (map_err from_aead_error (open_with_aad p key d.0 d.1 aad)) _ h4 in
      let same : ◌≡◌ {A = Bytes × Bytes} (c, u) (n, t) = ok-injective h5 in
      (
        omega (
          arith,
          split_length e.encrypted_name a.0 a.1 name_split,
          opened_length key a.0 a.1 aad b (map_err-eq-ok from_aead_error _ name_opened),
          ap length (from_utf8-eq b c (ok_or-eq-ok _ _ c text)),
          ap (λ (q : Bytes × Bytes). length q.0) same,
        ),
        omega (
          arith,
          split_length e.encrypted_data d.0 d.1 data_split,
          opened_length key d.0 d.1 aad u (map_err-eq-ok from_aead_error _ data_opened),
          ap (λ (q : Bytes × Bytes). length q.1) same,
        ),
      )

  entries_total-stored_size :
      (key : Bytes) (files : HashMap IndexEntry) (plain : HashMap Bytes)
      → Reads p key files plain
      → entries_total files ≡ stored_size plain
  entries_total-stored_size key [] [] reads = refl
  entries_total-stored_size key [] (q ∷ plain) reads = absurd reads
  entries_total-stored_size key (f ∷ files) [] reads = absurd reads
  entries_total-stored_size key ((k, e) ∷ files) ((n, t) ∷ plain) (opens, reads) =
      let (name_length, data_length) = entry_lengths key k n t e opens in
      omega (arith, name_length, data_length, entries_total-stored_size key files plain reads)

  -- On a platform that keeps the laws of `IsSound` and works: on every vault that starts with `create`
  -- and goes through any sequence of calls, and whose entries hold a list of names and plaintexts under
  -- a key, `export` succeeds when the names, the plaintexts, 128 bytes for each, the header and 66 bytes
  -- more are within 256 MiB, the nonce counter is below the largest `u64` and the header encodes.
  pub export-stored_size :
      (works : Works p) (key json : Bytes) (plain : HashMap Bytes) (s : Owned Vault)
      → Reached p s
      → Reads p key s.self.index.files plain
      → s.self.index.nonce_counter < u64_max
      → p.header_to_json s.self.header ≡ some json
      → stored_size plain + length json + 66 ≤ max_vault_file_size
      → (out : Bytes) × ((export p s).0 ≡ ok out)
  unfolding encoded_total
  export-stored_size works key json plain s reached reads below j fits =
      let total = entries_total-stored_size key s.self.index.files plain reads in
      export-Reached p sound works json s reached below j (omega (arith, total, fits))
