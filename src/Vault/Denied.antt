-- ===== src/Vault/Denied.antt =====
-- A wrong password, for `open` and `change_password` of src/vault/facade.rs.
use memseal.Prelude.{
  ◌≤◌, ◌≡◌, ◌≢◌, refl, sym, subst, none, ap, ◌∙◌, false, some, length, arith, Bool-cases, inl, inr,
  if◌then◌else◌,
}
use memseal.Constants.{min_password_len, max_header_json_len}
use memseal.Bytes.{Bytes}
use memseal.Errors.{ok, err, AadAeadError, invalid_password}
use memseal.Platform.{Platform, IsSound, Os}
use memseal.Types.{Vault}
use memseal.Owned.{Owned}
use memseal.Crypto.Aead.{open_with_aad, open_with_aad-refused}
use memseal.Header.{to_aad_bytes}
use memseal.Envelope.{Envelope, parse_envelope}
use memseal.Index.Keys.{derive_subkeys}
use memseal.Vault.Keys.{derive_master_key, validate_password, verify_password}
use memseal.Vault.Export.{export}
use memseal.Vault.Exported.{export-Exported}
use memseal.Vault.Reopen.{extract_enc_key-eq, parse_envelope-export}
use memseal.Vault.Sessions.{Session, Session-Opens}
use memseal.Vault.Session.{open_envelope, open_vault, change_password}

module _ (p : Platform) where
  verify_password_by :
      {mk enc hmac : Bytes} (v : Vault) (password : Bytes)
      → derive_master_key p password v.header ≡ ok mk
      → derive_subkeys p mk v.header.kdf_salt ≡ ok (enc, hmac)
      → verify_password p v password
        ≡ (if p.secure_cmp v.index.enc_key.region enc then ok tt else err invalid_password)
  unfolding verify_password
  verify_password_by v password key subkeys = rw (key, subkeys) refl

  compared : (sound : IsSound p) (a b : Bytes) → a ≢ b → p.secure_cmp a b ≡ false
  compared sound a b apart = elim (Bool-cases (p.secure_cmp a b)) [
    | inl e ↦ absurd (apart (sound.cmp_eq a b e))
    | inr e ↦ e
  ]

  change_password_denied :
      (current new : Bytes) (s : Owned Vault)
      → validate_password new ≡ ok tt
      → verify_password p s.self current ≡ err invalid_password
      → change_password p current new s ≡ (err invalid_password, s)
  unfolding change_password
  change_password_denied current new s long wrong = rw (long, wrong) refl

  long_enough : (new : Bytes) → min_password_len ≤ length new → validate_password new ≡ ok tt
  unfolding validate_password
  long_enough new h = ground arith

  -- On a platform that keeps the laws of `IsSound`: when the new password has at least 8 bytes and the
  -- subkeys that the current password gives can be derived, `change_password` with another encryption
  -- subkey than the one in memory fails with `InvalidPassword` and changes neither the vault nor the
  -- world.
  pub change_password-invalid_password :
      (sound : IsSound p) (current new mk enc hmac : Bytes) (s : Owned Vault)
      → min_password_len ≤ length new
      → derive_master_key p current s.self.header ≡ ok mk
      → derive_subkeys p mk s.self.header.kdf_salt ≡ ok (enc, hmac)
      → s.self.index.enc_key.region ≢ enc
      → change_password p current new s ≡ (err invalid_password, s)
  change_password-invalid_password sound current new mk enc hmac s long key subkeys apart =
      change_password_denied current new s (long_enough new long) (
        verify_password_by s.self current key subkeys
        ∙ ap (λ b. if b then ok tt else err invalid_password)
            (compared sound s.self.index.enc_key.region enc apart))

  open_envelope_denied :
      {mk enc hmac aad : Bytes} {envelope : Envelope} {e : AadAeadError} (os : Os)
      (password bytes : Bytes)
      → parse_envelope p bytes ≡ ok envelope
      → derive_master_key p password envelope.header ≡ ok mk
      → derive_subkeys p mk envelope.header.kdf_salt ≡ ok (enc, hmac)
      → p.header_to_json envelope.header ≡ some aad
      → open_with_aad p enc envelope.nonce envelope.encrypted_index aad ≡ err e
      → open_envelope p password bytes os ≡ (err invalid_password, os)
  unfolding open_envelope to_aad_bytes
  open_envelope_denied os password bytes parsed key subkeys aad shut =
      rw (parsed, key, subkeys, aad, shut) refl

  -- On a platform that keeps the laws of `IsSound`: a vault starts with `create` and goes through any
  -- sequence of calls, and `export` of it then succeeds. When the subkeys of some password can be
  -- derived from the header, and what is sealed under the encryption key of the vault does not open
  -- under the encryption subkey of that password, `open` of the exported bytes with that password fails
  -- with `InvalidPassword` and leaves the world as it was. The JSON of the header is at most 4096 bytes.
  pub open_vault-Session_denied :
      (sound : IsSound p) (current password out mk enc hmac : Bytes) (s s' : Owned Vault) (os : Os)
      → Session p current s
      → ((json : Bytes)
          → p.header_to_json s.self.header ≡ some json
          → length json ≤ max_header_json_len)
      → export p s ≡ (ok out, s')
      → derive_master_key p password s.self.header ≡ ok mk
      → derive_subkeys p mk s.self.header.kdf_salt ≡ ok (enc, hmac)
      → ((n t a c : Bytes)
          → p.aead_seal s.self.index.enc_key.region n t a ≡ some c
          → p.aead_open enc n c a ≡ none)
      → open_vault p password out os ≡ (err invalid_password, os)
  unfolding open_vault
  open_vault-Session_denied sound current password out mk enc hmac s s' os session short h key
        subkeys refuses =
      let d = export-Exported p out s s' h in
      let opens = Session-Opens p current s session in
      let parsed = parse_envelope-export p sound opens.version opens.accepted short d in
      let same_key = extract_enc_key-eq p s.self.index.enc_key d.key d.key_ok in
      let shut =
        open_with_aad-refused p sound d.key d.nonce d.index_bytes d.json d.sealed_index
          d.index_sealed enc
          λ n sealed. refuses n d.index_bytes d.json d.sealed_index (
            subst (λ k. p.aead_seal k n d.index_bytes d.json ≡ some d.sealed_index) (sym same_key)
              sealed) in
      rw (open_envelope_denied os password out parsed key subkeys d.json_ok shut) refl
