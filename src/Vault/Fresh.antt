-- ===== src/Vault/Fresh.antt =====
-- What a new vault holds, and what `export` and `save` leave of a vault.
use memseal.Prelude.{◌≡◌, refl, sym, ap, ◌∙◌, subst, [], length, arith}
use memseal.Bytes.{Bytes, AreBytes}
use memseal.Errors.{ok, from_index_error, random, locked_memory, ok-injective}
use memseal.Exec.{pure_step, state_step, own_step}
use memseal.Platform.{Platform, IsSound, Os}
use memseal.Types.{LockedSecret, VaultIndex, VaultHeader, Vault}
use memseal.Crypto.Random.{secure_bytes_fill}
use memseal.Secret.{region_new, secret_new}
use memseal.Header.{generate}
use memseal.Index.{from_master_key}
use memseal.Index.Keys.{derive_subkeys}
use memseal.Index.Subkeys.{IsSubkey, derive_subkeys-IsSubkey}
use memseal.Vault.Keys.{derive_master_key, extract_enc_key}
use memseal.Vault.Session.{fresh_vault}
use memseal.Vault.Stored.{secure_bytes_fill-Filled}
use memseal.Vault.Keeps.{IsRenewed}

-- A `[u8; 24]`.
abbrev pub IsNonce : Bytes → Type 0
IsNonce nonce = (length nonce ≡ 24) × AreBytes nonce

pub record IsFresh (v : Vault) : Type 0 where
  pub version : v.header.version ≡ 2
  pub empty : v.index.files ≡ []
  pub uncounted : v.index.data_nonce_counter ≡ 0
  pub enc_key : Bytes
  pub extracted : extract_enc_key v.index.enc_key ≡ ok enc_key
  pub nonce_ok : IsNonce v.index.nonce
  pub enc_key_ok : IsSubkey v.index.enc_key.region
  pub hmac_key_ok : IsSubkey v.index.hmac_key.region

-- The entries and the subkeys are the same.
pub record IsSameView (v w : Vault) : Type 0 where
  pub files : w.index.files ≡ v.index.files
  pub enc_key : w.index.enc_key ≡ v.index.enc_key
  pub hmac_key : w.index.hmac_key ≡ v.index.hmac_key

pub IsRenewed-IsSameView : (v w : Vault) → IsRenewed v w → IsSameView v w
IsRenewed-IsSameView v w same = record {
  files = ap (λ (x : Vault). x.index.files) same;
  enc_key = ap (λ (x : Vault). x.index.enc_key) same;
  hmac_key = ap (λ (x : Vault). x.index.hmac_key) same;
}

module _ (p : Platform) where
  extract_enc_key_32 :
      (secret : LockedSecret)
      → length secret.region ≡ 32
      → extract_enc_key secret ≡ ok secret.region
  unfolding extract_enc_key
  extract_enc_key_32 secret h = rw h refl

  pub secret_new-region :
      (secret : Bytes) (out : LockedSecret) (os os' : Os)
      → secret_new p secret os ≡ (ok out, os')
      → out.region ≡ secret
  unfolding secret_new region_new
  secret_new-region secret out os os' h = ground arith

  from_master_key-IsFresh :
      IsSound p
      → (header : VaultHeader) (master_key salt : Bytes) (index : VaultIndex) (os os' : Os)
      → header.version ≡ 2
      → from_master_key p master_key salt os ≡ (ok index, os')
      → IsFresh (record { header = header; index = index })
  unfolding from_master_key
  from_master_key-IsFresh sound header master_key salt index os os' version h =
      pure_step G (derive_subkeys p master_key salt) _ h λ (enc, hmac) o1 q1.
        state_step G random (secure_bytes_fill p 24 os) _ q1 λ nonce os2 t2 q2.
          state_step G locked_memory (secret_new p enc os2) _ q2 λ enc_key os3 t3 q3.
            state_step G locked_memory (secret_new p hmac os3) _ q3 λ hmac_key os4 t4 q4.
              let made = ok-injective (ap (λ q. q.0) q4) in
              let (enc_ok, hmac_ok) = derive_subkeys-IsSubkey p sound master_key salt enc hmac o1 in
              let enc_same = secret_new-region enc enc_key os2 os3 t3 in
              let hmac_same = secret_new-region hmac hmac_key os3 os4 t4 in
              let filled = secure_bytes_fill-Filled p 24 nonce os os2 t2 in
              subst (λ i. IsFresh (record { header = header; index = i })) made
                (record {
                  version = version;
                  empty = refl;
                  uncounted = refl;
                  enc_key = enc_key.region;
                  extracted = extract_enc_key_32 enc_key (ap length enc_same ∙ enc_ok.0);
                  nonce_ok = (
                    sound.fill_length filled.at 24 nonce filled.answer,
                    sound.fill_bytes filled.at 24 nonce filled.answer,
                  );
                  enc_key_ok = subst IsSubkey (sym enc_same) enc_ok;
                  hmac_key_ok = subst IsSubkey (sym hmac_same) hmac_ok;
                })
    where
      G : Type 0
      G = IsFresh (record { header = header; index = index })

  generate-version :
      (header : VaultHeader) (os os' : Os) → generate p os ≡ (ok header, os') → header.version ≡ 2
  unfolding generate secure_bytes_fill
  generate-version header os os' h = ground arith

  pub fresh_vault-IsFresh :
      IsSound p
      → (password : Bytes) (v : Vault) (os os' : Os) → fresh_vault p password os ≡ (ok v, os')
      → IsFresh v
  unfolding fresh_vault
  fresh_vault-IsFresh sound password v os os' h = own_step G (generate p os) _ h λ header os1 t1 q1.
      pure_step G (derive_master_key p password header) _ q1 λ master_key o2 q2.
        state_step G from_index_error (from_master_key p master_key header.kdf_salt os1) _ q2
          λ index os3 t3 q3. subst IsFresh (ok-injective (ap (λ q. q.0) q3)) (
            from_master_key-IsFresh sound header master_key header.kdf_salt index os1 os3
              (generate-version header os os1 t1) t3)
    where
      G : Type 0
      G = IsFresh v
