-- ===== src/Crypto/Aead.antt =====
-- `seal_with_aad` and `open_with_aad` of src/crypto/aad_aead.rs.
use memseal.Prelude.{◌+◌, ◌≡◌, refl, subst, false, length, ltb, arith, Option, none, some}
use memseal.Constants.{poly1305_outsize}
use memseal.Bytes.{Bytes, AreBytes}
use memseal.Errors.{
  Result, ok, err, ◌>>=◌, ◌>>◌, fail_if, AadAeadError, encryption_failed, decryption_failed,
  ciphertext_too_short, >>=-eq-ok,
}
use memseal.Platform.{Platform, IsSound}
use memseal.Crypto.Random.{ok_or}

module _ (p : Platform) where
  unfoldable pub seal_with_aad : Bytes → Bytes → Bytes → Bytes → Result AadAeadError Bytes
  seal_with_aad key_bytes nonce_bytes plaintext aad = do
    key ← ok_or (p.secret_key_from_slice key_bytes) encryption_failed
    nonce ← ok_or (p.nonce_from_slice nonce_bytes) encryption_failed
    ok_or (p.aead_seal key nonce plaintext aad) encryption_failed

  unfoldable pub open_with_aad : Bytes → Bytes → Bytes → Bytes → Result AadAeadError Bytes
  open_with_aad key_bytes nonce_bytes ciphertext_with_tag aad = do
    fail_if (ltb (length ciphertext_with_tag) poly1305_outsize) ciphertext_too_short
    key ← ok_or (p.secret_key_from_slice key_bytes) decryption_failed
    nonce ← ok_or (p.nonce_from_slice nonce_bytes) decryption_failed
    ok_or (p.aead_open key nonce ciphertext_with_tag aad) decryption_failed

pub ok_or-eq-ok {ℓ κ} :
    {E : Type ℓ} {A : Type κ} (o : Option A) (e : E) (a : A) → ok_or o e ≡ ok a → o ≡ some a
ok_or-eq-ok none e a h = cc
ok_or-eq-ok (some b) e a h = cc

-- The parts of a successful `seal_with_aad`.
record Sealed (p : Platform) (key nonce plaintext aad c : Bytes) : Type 0 where
  k : Bytes
  n : Bytes
  key_ok : p.secret_key_from_slice key ≡ some k
  nonce_ok : p.nonce_from_slice nonce ≡ some n
  sealed : p.aead_seal k n plaintext aad ≡ some c

seal_with_aad-Sealed :
    (p : Platform) (key nonce plaintext aad c : Bytes)
    → seal_with_aad p key nonce plaintext aad ≡ ok c
    → Sealed p key nonce plaintext aad c
unfolding seal_with_aad
seal_with_aad-Sealed p key nonce plaintext aad c h =
    let (k, t1, q1) = >>=-eq-ok (ok_or (p.secret_key_from_slice key) encryption_failed) _ h in
    let (n, t2, q2) = >>=-eq-ok (ok_or (p.nonce_from_slice nonce) encryption_failed) _ q1 in
    record {
      k = k;
      n = n;
      key_ok = ok_or-eq-ok _ _ k t1;
      nonce_ok = ok_or-eq-ok _ _ n t2;
      sealed = ok_or-eq-ok (p.aead_seal k n plaintext aad) encryption_failed c q2;
    }

module _ (p : Platform) (s : IsSound p) (key nonce plaintext aad c : Bytes)
    (h : seal_with_aad p key nonce plaintext aad ≡ ok c) where
  -- A sealed text has the length of the plaintext and the tag.
  pub length-seal_with_aad : length c ≡ length plaintext + 16
  length-seal_with_aad =
      let q = seal_with_aad-Sealed p key nonce plaintext aad c h in
      s.seal_length q.k q.n plaintext aad c q.sealed

  pub seal_with_aad-AreBytes : AreBytes c
  seal_with_aad-AreBytes =
      let q = seal_with_aad-Sealed p key nonce plaintext aad c h in
      s.seal_bytes q.k q.n plaintext aad c q.sealed

  -- What `seal_with_aad` returned, `open_with_aad` opens under the same key, nonce and data.
  pub open_with_aad-seal_with_aad : open_with_aad p key nonce c aad ≡ ok plaintext
  unfolding open_with_aad
  open_with_aad-seal_with_aad =
      let q = seal_with_aad-Sealed p key nonce plaintext aad c h in
      let long : ltb (length c) 16 ≡ false = ground (arith, length-seal_with_aad) in
      rw (long, q.key_ok, q.nonce_ok, s.open_seal q.k q.n plaintext aad c q.sealed)

  refused_by_key :
      (other n : Bytes)
      → p.nonce_from_slice nonce ≡ some n
      → p.aead_open other n c aad ≡ none
      → (found : Option Bytes) → p.secret_key_from_slice other ≡ found
      → open_with_aad p other nonce c aad ≡ err decryption_failed
  unfolding open_with_aad
  refused_by_key other n nonce_ok shut none found =
      let long : ltb (length c) 16 ≡ false = ground (arith, length-seal_with_aad) in
      rw (long, found) refl
  refused_by_key other n nonce_ok shut (some k) found =
      let long : ltb (length c) 16 ≡ false = ground (arith, length-seal_with_aad) in
      rw (long, found, nonce_ok, s.secret_key other k found, shut) refl

  -- A sealed text does not open under a key that its tag refuses.
  pub open_with_aad-refused :
      (other : Bytes)
      → ((n : Bytes) → p.aead_seal key n plaintext aad ≡ some c → p.aead_open other n c aad ≡ none)
      → open_with_aad p other nonce c aad ≡ err decryption_failed
  open_with_aad-refused other refuses =
      let q = seal_with_aad-Sealed p key nonce plaintext aad c h in
      let sealed =
        subst (λ k. p.aead_seal k q.n plaintext aad ≡ some c) (s.secret_key key q.k q.key_ok)
          q.sealed in
      refused_by_key other q.n q.nonce_ok (refuses q.n sealed) (p.secret_key_from_slice other) refl
