-- ===== src/Vault/Exported.antt =====
-- What a successful `export` has done.
use memseal.Prelude.{ℕ, ◌+◌, ◌≤◌, ◌<◌, ◌≡◌, sym, ap, ◌∙◌, subst, Option, some, length, arith}
use memseal.Constants.{max_vault_file_size, u64_max}
use memseal.Bytes.{Bytes}
use memseal.Errors.{
  ok, from_index_error, from_aead_error, map_err as map_err_result, map_err-eq-ok, ok-injective,
  random, counter_overflow, nonce_counter,
}
use memseal.Exec.{pure_step, state_step}
use memseal.Platform.{Platform, Os}
use memseal.Types.{VaultIndex, Vault}
use memseal.Owned.{Owned, on_index, on_os}
use memseal.Codec.Encode.{encode_index}
use memseal.Crypto.Random.{secure_bytes_fill, ok_or}
use memseal.Crypto.Aead.{seal_with_aad, ok_or-eq-ok}
use memseal.Header.{to_aad_bytes}
use memseal.Index.{advance_nonce, checked_succ}
use memseal.Vault.Keys.{extract_enc_key, validate_export_size}
use memseal.Vault.Export.{envelope_bytes, export}
use memseal.Vault.Stored.{Filled}

-- The vault after the nonce of its index was renewed.
abbrev pub renewed : Vault → Bytes → Vault
renewed v nonce = record v {
  index = record v.index { nonce = nonce; nonce_counter = v.index.nonce_counter + 1 };
}

record Advanced (p : Platform) (v v' : Vault) : Type 0 where
  nonce : Bytes
  filled : Filled p 24 nonce
  fits : v.index.nonce_counter < u64_max
  after : v' ≡ renewed v nonce

checked_succ-some : (n m : ℕ) → checked_succ n ≡ some m → (n < u64_max) × (m ≡ n + 1)
checked_succ-some n m h = ground arith

secure_bytes_fill-answer :
    (p : Platform) (n : ℕ) (bytes : Bytes) (os os' : Os)
    → secure_bytes_fill p n os ≡ (ok bytes, os')
    → Filled p n bytes
unfolding secure_bytes_fill
secure_bytes_fill-answer p n bytes os os' h = record { at = os.calls; answer = ground arith }

-- What `advance_nonce` does when it succeeds: a new nonce, and the counter is one more.
advance_nonce-Advanced :
    (p : Platform) (v : Vault) (os : Os) (t : Owned VaultIndex)
    → advance_nonce p (record { self = v.index; os = os }) ≡ (ok tt, t)
    → Advanced p v (record v { index = t.self })
unfolding advance_nonce
advance_nonce-Advanced p v os t h =
    pure_step G (ok_or (checked_succ v.index.nonce_counter) (counter_overflow nonce_counter)) _ h
      λ m o1 q1.
        let (fits, next) = checked_succ-some v.index.nonce_counter m (ok_or-eq-ok _ _ m o1) in
        state_step G random (on_os (secure_bytes_fill p 24) _) _ q1 λ nonce s1 t1 q2. record {
          nonce = nonce;
          filled = secure_bytes_fill-answer p 24 nonce os s1.os (λ i. ((t1 i).0, (t1 i).1.os));
          fits = fits;
          after =
              ap (λ q. record v { index = q.1.self }) (sym q2)
              ∙ (ap (λ q. record v { index = record q.1.self { nonce = nonce } }) (sym t1)
                  ∙ ap
                      (λ n. record v {
                        index = record v.index { nonce = nonce; nonce_counter = n };
                      })
                      next);
        }
  where
    G : Type 0
    G = Advanced p v (record v { index = t.self })

advance_nonce_in-Advanced :
    (p : Platform) (s t : Owned Vault)
    → on_index (advance_nonce p) s ≡ (ok tt, t)
    → Advanced p s.self t.self
advance_nonce_in-Advanced p s t h =
    let q = advance_nonce p (record { self = s.self.index; os = s.os }) in
    let run : q ≡ (ok tt, q.1) = λ i. ((h i).0, q.1) in
    subst (λ v. Advanced p s.self v) (ap (λ r. r.1.self) h)
      (advance_nonce-Advanced p s.self s.os q.1 run)

-- What `export` made of the vault whose nonce it had renewed.
pub record Exported (p : Platform) (v v' : Vault) (out : Bytes) : Type 0 where
  pub nonce : Bytes
  pub nonce_filled : Filled p 24 nonce
  pub counter_fits : v.index.nonce_counter < u64_max
  pub after : v' ≡ renewed v nonce
  pub json : Bytes
  pub json_ok : p.header_to_json v.header ≡ some json
  pub index_bytes : Bytes
  pub encoded : encode_index (renewed v nonce).index ≡ ok index_bytes
  pub key : Bytes
  pub key_ok : extract_enc_key v.index.enc_key ≡ ok key
  pub sealed_index : Bytes
  pub index_sealed : seal_with_aad p key nonce index_bytes json ≡ ok sealed_index
  pub whole : out ≡ envelope_bytes json nonce sealed_index
  pub size : length out ≤ max_vault_file_size

some-injective : {a b : Bytes} → ◌≡◌ {A = Option Bytes} (some a) (some b) → a ≡ b
some-injective h = cc

validate_export_size-ok : (n : ℕ) → validate_export_size n ≡ ok tt → n ≤ max_vault_file_size
unfolding validate_export_size
validate_export_size-ok n h = ground arith

-- The results of the steps of `export` behind the renewal.
abbrev IsExportOf : Platform → Bytes → Bytes → Bytes → Bytes → Bytes → Bytes → Vault → Type 0
IsExportOf p json bytes key aad sealed out w =
    (p.header_to_json w.header ≡ some json)
    × (encode_index w.index ≡ ok bytes)
    × (extract_enc_key w.index.enc_key ≡ ok key)
    × (p.header_to_json w.header ≡ some aad)
    × (seal_with_aad p key w.index.nonce bytes aad ≡ ok sealed)
    × (length (envelope_bytes json w.index.nonce sealed) ≤ max_vault_file_size)
    × (envelope_bytes json w.index.nonce sealed ≡ out)

exported :
    {json bytes key aad sealed out : Bytes} (p : Platform) (v v1 v' : Vault)
    → Advanced p v v1
    → IsExportOf p json bytes key aad sealed out v1
    → v1 ≡ v'
    → Exported p v v' out
exported {json} {bytes} {key} {aad} {sealed} {out} p v v1 v' a facts same =
    let (j, enc, k, j', seal, size, whole) =
      subst (λ w. IsExportOf p json bytes key aad sealed out w) a.after facts in
    let same_json : aad ≡ json = some-injective (sym j' ∙ j) in
    record {
      nonce = a.nonce;
      nonce_filled = a.filled;
      counter_fits = a.fits;
      after = sym same ∙ a.after;
      json = json;
      json_ok = j;
      index_bytes = bytes;
      encoded = enc;
      key = key;
      key_ok = k;
      sealed_index = sealed;
      index_sealed = subst (λ x. seal_with_aad p key a.nonce bytes x ≡ ok sealed) same_json seal;
      whole = sym whole;
      size = subst (λ (b : Bytes). length b ≤ max_vault_file_size) whole size;
    }

pub export-Exported :
    (p : Platform) (out : Bytes) (s s' : Owned Vault)
    → export p s ≡ (ok out, s')
    → Exported p s.self s'.self out
unfolding export to_aad_bytes
export-Exported p out s s' h =
    state_step G from_index_error (on_index (advance_nonce p) s) _ h λ u1 s1 t1 q1.
      pure_step G (ok_or (p.header_to_json s1.self.header) _) _ q1 λ json o2 q2.
        pure_step G (encode_index s1.self.index) _ q2 λ bytes o3 q3.
          pure_step G (extract_enc_key s1.self.index.enc_key) _ q3 λ key o4 q4.
            pure_step G (ok_or (p.header_to_json s1.self.header) _) _ q4 λ aad o5 q5.
              pure_step G
                (map_err_result from_aead_error (seal_with_aad p key s1.self.index.nonce bytes aad))
                _ q5
                λ sealed o6 q6.
                  pure_step G
                    (validate_export_size (length (envelope_bytes json s1.self.index.nonce sealed)))
                    _ q6
                    λ u7 o7 q7.
                      exported p s.self s1.self s'.self (advance_nonce_in-Advanced p s s1 t1)
                        (
                          ok_or-eq-ok _ _ json o2,
                          o3,
                          o4,
                          ok_or-eq-ok _ _ aad o5,
                          map_err-eq-ok _ _ o6,
                          validate_export_size-ok _ o7,
                          ok-injective (ap (λ q. q.0) q7),
                        )
                        (ap (λ q. q.1.self) q7)
  where
    G : Type 0
    G = Exported p s.self s'.self out
