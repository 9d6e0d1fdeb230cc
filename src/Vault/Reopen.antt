-- ===== src/Vault/Reopen.antt =====
-- `open` gives back the vault that `export` wrote.
use memseal.Prelude.{
  ℕ, ◌+◌, ◌≤◌, ◌<◌, ◌≡◌, refl, sym, ap, ◌∙◌, subst, true, false, some, length, arith, ◌==◌,
}
use memseal.Constants.{max_header_json_len, vault_version, u64_max}
use memseal.Bytes.{Bytes}
use memseal.Errors.{ok, VaultError, ok-injective}
use memseal.HashMap.{HashMap}
use memseal.Platform.{Platform, IsSound, Os, called}
use memseal.Types.{IndexEntry, IndexData, LockedSecret, VaultIndex, VaultHeader, Vault}
use memseal.Owned.{Owned}
use memseal.Codec.Decode.{decode_index}
use memseal.Codec.RoundTrip.{IsEncodable, index_data, decode_index-encode_index}
use memseal.Crypto.Aead.{open_with_aad, open_with_aad-seal_with_aad}
use memseal.Secret.{region_new, secret_new}
use memseal.Header.{validate_header, to_aad_bytes}
use memseal.Envelope.{Envelope, parse_envelope}
use memseal.Envelope.RoundTrip.{parse_envelope-envelope_bytes}
use memseal.Index.{check_counters, from_subkeys_and_data}
use memseal.Index.Keys.{derive_subkeys}
use memseal.Index.Subkeys.{derive_subkeys-IsSubkey}
use memseal.Index.Valid.{IsValid, check_counters-IsBelow}
use memseal.Vault.Keys.{derive_master_key, extract_enc_key}
use memseal.Vault.Export.{export}
use memseal.Vault.Exported.{Exported, export-Exported, renewed}
use memseal.Vault.Session.{decode_for, open_envelope, open_vault}

module _ (p : Platform) where
  -- Every allocation and lock of memory succeeds.
  pub record HasMemory : Type 0 where
    pub allocates : (i n : ℕ) → p.malloc_sized i n ≡ true
    pub locks : (i n : ℕ) → p.mlock i n ≡ true

  -- The subkeys of the vault come from this password and its header.
  pub record Unlocks (password : Bytes) (v : Vault) : Type 0 where
    pub master_key : Bytes
    pub derived : derive_master_key p password v.header ≡ ok master_key
    pub subkeys :
        derive_subkeys p master_key v.header.kdf_salt
        ≡ ok (v.index.enc_key.region, v.index.hmac_key.region)

  pub secret_new_succeeds :
      (bytes : Bytes) (os : Os)
      → HasMemory
      → length bytes ≡ 32
      → secret_new p bytes os ≡ (ok (record { region = bytes }), called (called os))
  unfolding secret_new region_new
  secret_new_succeeds bytes os memory n =
      let present : length bytes == 0 ≡ false = ground arith in
      rw
        (
          present,
          memory.allocates os.calls (length bytes),
          memory.locks (os.calls + 1) (length bytes),
        )
        refl

  from_subkeys_and_data_succeeds :
      (enc hmac nonce : Bytes) (c d : ℕ) (files : HashMap IndexEntry) (os : Os)
      → HasMemory
      → length enc ≡ 32
      → length hmac ≡ 32
      → check_counters d files ≡ ok tt
      → from_subkeys_and_data p enc hmac nonce c d files os ≡ (
        ok (record {
          nonce = nonce;
          nonce_counter = c;
          data_nonce_counter = d;
          files = files;
          enc_key = record { region = enc };
          hmac_key = record { region = hmac };
        }),
        called (called (called (called os))),
      )
  unfolding from_subkeys_and_data
  from_subkeys_and_data_succeeds enc hmac nonce c d files os memory e h counters =
      rw
        (
          counters,
          secret_new_succeeds enc os memory e,
          secret_new_succeeds hmac (called (called os)) memory h,
        )
        refl

  -- The run of `open_envelope` up to the construction of the index.
  open_envelope_by :
      {mk enc hmac aad index_bytes : Bytes} {envelope : Envelope} {d : IndexData}
      {index : VaultIndex} (os : Os) {os' : Os} (password bytes : Bytes)
      → parse_envelope p bytes ≡ ok envelope
      → derive_master_key p password envelope.header ≡ ok mk
      → derive_subkeys p mk envelope.header.kdf_salt ≡ ok (enc, hmac)
      → p.header_to_json envelope.header ≡ some aad
      → open_with_aad p enc envelope.nonce envelope.encrypted_index aad ≡ ok index_bytes
      → decode_for p envelope.header index_bytes ≡ ok d
      → from_subkeys_and_data p enc hmac envelope.nonce d.nonce_counter d.data_nonce_counter d.files
          os
        ≡ (ok index, os')
      → open_envelope p password bytes os
        ≡ (ok (record { header = envelope.header; index = index }), os')
  unfolding open_envelope to_aad_bytes
  open_envelope_by os password bytes parsed key subkeys aad opened decoded built =
      rw (parsed, key, subkeys, aad, opened, decoded, built) refl

  open_vault_current :
      {v : Vault} (os : Os) {os' : Os} (password bytes : Bytes)
      → v.header.version ≡ vault_version
      → open_envelope p password bytes os ≡ (ok v, os')
      → (open_vault p password bytes os).0 ≡ ok v
  unfolding open_vault
  open_vault_current os password bytes current run = rw (run, current) refl

  pub extract_enc_key-eq :
      (secret : LockedSecret) (key : Bytes) → extract_enc_key secret ≡ ok key → secret.region ≡ key
  unfolding extract_enc_key
  extract_enc_key-eq secret key h =
      ground (arith, ok-injective {E = VaultError} {a = secret.region} {b = key})

  decode_for_current :
      (header : VaultHeader) (bytes : Bytes)
      → header.version ≡ vault_version
      → decode_for p header bytes ≡ decode_index bytes
  unfolding decode_for
  decode_for_current header bytes current = rw current refl

  renewed-IsEncodable :
      (v : Vault) (nonce : Bytes)
      → v.index.nonce_counter < u64_max
      → IsValid v.index
      → IsEncodable (index_data (renewed v nonce).index)
  renewed-IsEncodable v nonce fits valid = record {
    nonce_counter_fits = omega arith;
    data_nonce_counter_fits = valid.encodable.data_nonce_counter_fits;
    count = valid.encodable.count;
    distinct = valid.encodable.distinct;
    storable = valid.encodable.storable;
  }

  -- The parts of an exported file.
  pub parse_envelope-export :
      {v v' : Vault} {out : Bytes} (sound : IsSound p)
      → v.header.version ≡ vault_version
      → validate_header v.header ≡ ok tt
      → ((json : Bytes) → p.header_to_json v.header ≡ some json → length json ≤ max_header_json_len)
      → (d : Exported p v v' out)
      → parse_envelope p out
        ≡ ok (record { header = v.header; nonce = d.nonce; encrypted_index = d.sealed_index })
  parse_envelope-export {v} sound current accepted short d =
      ap (parse_envelope p) d.whole
      ∙ parse_envelope-envelope_bytes p sound v.header d.json d.nonce d.sealed_index current
          accepted d.json_ok (short d.json d.json_ok)
          (sound.fill_length d.nonce_filled.at 24 d.nonce d.nonce_filled.answer)
          (subst (λ (b : Bytes). length b ≤ 268435456) d.whole d.size)

  -- On a platform that keeps the laws of `IsSound`: when `export` of a vault succeeds, `open` of
  -- its bytes with the password behind the subkeys returns the exported vault: same header,
  -- entries, counters, nonce and subkeys. The index is valid, the version is 2, `validate_header`
  -- accepts the header, its JSON is at most 4096 bytes, and memory can be allocated and locked.
  pub open_vault-export :
      (sound : IsSound p) (memory : HasMemory) (password out : Bytes) (s s' : Owned Vault) (os : Os)
      → IsValid s.self.index
      → s.self.header.version ≡ vault_version
      → validate_header s.self.header ≡ ok tt
      → ((json : Bytes)
          → p.header_to_json s.self.header ≡ some json
          → length json ≤ max_header_json_len)
      → Unlocks password s.self
      → export p s ≡ (ok out, s')
      → (open_vault p password out os).0 ≡ ok s'.self
  open_vault-export sound memory password out s s' os valid current accepted short unlocks h =
      let d = export-Exported p out s s' h in
      let v = s.self in
      let (enc_ok, hmac_ok) =
        derive_subkeys-IsSubkey p sound unlocks.master_key v.header.kdf_salt v.index.enc_key.region
          v.index.hmac_key.region unlocks.subkeys in
      let same_key = extract_enc_key-eq v.index.enc_key d.key d.key_ok in
      let parsed = parse_envelope-export sound current accepted short d in
      let opened : open_with_aad p v.index.enc_key.region d.nonce d.sealed_index d.json
          ≡ ok d.index_bytes =
        subst (λ k. open_with_aad p k d.nonce d.sealed_index d.json ≡ ok d.index_bytes)
          (sym same_key)
          (open_with_aad-seal_with_aad p sound d.key d.nonce d.index_bytes d.json d.sealed_index
            d.index_sealed) in
      let decoded =
        decode_for_current v.header d.index_bytes current
        ∙ decode_index-encode_index (renewed v d.nonce).index d.index_bytes
            (renewed-IsEncodable v d.nonce d.counter_fits valid) d.encoded in
      let built =
        from_subkeys_and_data_succeeds v.index.enc_key.region v.index.hmac_key.region d.nonce
          (v.index.nonce_counter + 1) v.index.data_nonce_counter v.index.files os memory enc_ok.0
          hmac_ok.0
          ((check_counters-IsBelow v.index.data_nonce_counter v.index.files).1 valid.below) in
      let run =
        open_envelope_by os password out parsed unlocks.derived unlocks.subkeys d.json_ok opened
          decoded built in
      open_vault_current os password out current run ∙ ap ok (sym d.after)
