-- ===== src/Index/Subkeys.antt =====
-- The subkeys that `derive_subkeys` of src/vault/vault_index.rs returns.
use memseal.Prelude.{◌≡◌, subst, length}
use memseal.Constants.{subkey_len}
use memseal.Bytes.{Bytes, AreBytes}
use memseal.Errors.{ok, >>=-eq-ok, ok-injective}
use memseal.Platform.{Platform, IsSound}
use memseal.Crypto.Random.{ok_or}
use memseal.Crypto.Aead.{ok_or-eq-ok}
use memseal.Index.Keys.{derive_subkeys, encryption_subkey_info, hmac_subkey_info}

-- A `[u8; 32]`.
abbrev pub IsSubkey : Bytes → Type 0
IsSubkey key = (length key ≡ 32) × AreBytes key

pub derive_subkeys-IsSubkey :
    (p : Platform) (sound : IsSound p) (master_key salt enc hmac : Bytes)
    → derive_subkeys p master_key salt ≡ ok (enc, hmac)
    → IsSubkey enc × IsSubkey hmac
unfolding derive_subkeys
derive_subkeys-IsSubkey p sound mk salt enc hmac h =
    let (e, t1, q1) = >>=-eq-ok (ok_or (p.hkdf salt mk encryption_subkey_info subkey_len) _) _ h in
    let (m, t2, q2) = >>=-eq-ok (ok_or (p.hkdf salt mk hmac_subkey_info subkey_len) _) _ q1 in
    let e_some = ok_or-eq-ok _ _ e t1 in
    let m_some = ok_or-eq-ok _ _ m t2 in
    subst (λ (x : Bytes × Bytes). IsSubkey x.0 × IsSubkey x.1) (ok-injective q2)
      (
        (sound.hkdf_length salt mk _ e 32 e_some, sound.hkdf_bytes salt mk _ e 32 e_some),
        (sound.hkdf_length salt mk _ m 32 m_some, sound.hkdf_bytes salt mk _ m 32 m_some),
      )
