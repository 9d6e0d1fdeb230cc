-- ===== src/Platform.antt =====
-- What the vault uses and does not implement. `Platform` holds the third-party crates (`orion`,
-- `argon2`, `serde_json`, `rand_core`, `memsec`) and the answers of the operating system; it is a
-- parameter of every definition that uses it. `Os` is the part of the world that a call changes.
use memseal.Prelude.{ℕ, ◌+◌, ◌≡◌, Bool, Option, some, length}
use memseal.Bytes.{Bytes, AreBytes}
use memseal.HashMap.{HashMap}
use memseal.Types.{VaultHeader}
use memseal.Codec.Legacy.{LegacyIndex}

-- `calls` counts the requests made to the operating system, so that each has its own answer.
-- `disk` holds the files by path.
pub record Os : Type 0 where
  pub calls : ℕ
  pub disk : HashMap Bytes

abbrev pub called : Os → Os
called os = record os { calls = os.calls + 1 }

pub record Platform : Type 0 where
  -- `OsRng.try_fill_bytes`: the answer to the request of this number, for this many bytes.
  pub try_fill_bytes : ℕ → ℕ → Option Bytes
  -- `memsec::malloc_sized` and `memsec::mlock`: does the call of this number, for this length,
  -- succeed?
  pub malloc_sized : ℕ → ℕ → Bool
  pub mlock : ℕ → ℕ → Bool
  -- `SecretKey::from_slice`, `Nonce::from_slice`, `xchacha20poly1305::seal` and `open`: the last
  -- two take key, nonce, text and associated data.
  pub secret_key_from_slice : Bytes → Option Bytes
  pub nonce_from_slice : Bytes → Option Bytes
  pub aead_seal : Bytes → Bytes → Bytes → Bytes → Option Bytes
  pub aead_open : Bytes → Bytes → Bytes → Bytes → Option Bytes
  -- `hkdf::sha256::derive_key`: salt, key material, info, output length.
  pub hkdf : Bytes → Bytes → Bytes → ℕ → Option Bytes
  -- `HmacSecretKey::from_slice` and `HmacSha256::hmac`.
  pub hmac_key_from_slice : Bytes → Option Bytes
  pub hmac : Bytes → Bytes → Option Bytes
  -- `orion::util::secure_cmp`: true where it returns `Ok`.
  pub secure_cmp : Bytes → Bytes → Bool
  -- `argon2i::derive_key`: password, salt, iterations, memory, output length.
  pub argon2i : Bytes → Bytes → ℕ → ℕ → ℕ → Option Bytes
  -- `argon2::Params::new` (memory, iterations, lanes, output length) and
  -- `hash_password_into_with_memory` (password, salt, and the same parameters).
  pub argon2_params : ℕ → ℕ → ℕ → ℕ → Bool
  pub argon2id : Bytes → Bytes → ℕ → ℕ → ℕ → ℕ → Option Bytes
  -- `serde_json::to_vec` and `from_slice` on a `VaultHeader`, and `from_slice` on the JSON index of
  -- format version 1.
  pub header_to_json : VaultHeader → Option Bytes
  pub header_from_json : Bytes → Option VaultHeader
  pub index_from_json : Bytes → Option LegacyIndex
  -- Does the file operation of this number succeed, and how many bytes does a failing write leave?
  pub io : ℕ → Bool
  pub partial_write : ℕ → ℕ

-- What the vault relies on. Each field is documented behaviour of the crate that it names.
pub record IsSound (p : Platform) : Type 0 where
  -- A filled buffer is a buffer of bytes of the length asked for.
  pub fill_length : (i n : ℕ) (b : Bytes) → p.try_fill_bytes i n ≡ some b → length b ≡ n
  pub fill_bytes : (i n : ℕ) (b : Bytes) → p.try_fill_bytes i n ≡ some b → AreBytes b
  -- `from_slice` keeps the bytes that it accepts.
  pub secret_key : (k k' : Bytes) → p.secret_key_from_slice k ≡ some k' → k' ≡ k
  pub nonce : (n n' : Bytes) → p.nonce_from_slice n ≡ some n' → n' ≡ n
  -- A sealed text is longer by the tag, consists of bytes, and opens under the same key, nonce and
  -- associated data.
  pub seal_length : (k n t a c : Bytes) → p.aead_seal k n t a ≡ some c → length c ≡ length t + 16
  pub seal_bytes : (k n t a c : Bytes) → p.aead_seal k n t a ≡ some c → AreBytes c
  pub open_seal : (k n t a c : Bytes) → p.aead_seal k n t a ≡ some c → p.aead_open k n c a ≡ some t
  -- An opened text is shorter by the tag.
  pub open_length : (k n t a c : Bytes) → p.aead_open k n c a ≡ some t → length c ≡ length t + 16
  -- HMAC-SHA256 returns 32 bytes.
  pub hmac_length : (k m t : Bytes) → p.hmac k m ≡ some t → length t ≡ 32
  pub hmac_bytes : (k m t : Bytes) → p.hmac k m ≡ some t → AreBytes t
  -- HKDF fills its output with bytes.
  pub hkdf_length : (s m i k : Bytes) (n : ℕ) → p.hkdf s m i n ≡ some k → length k ≡ n
  pub hkdf_bytes : (s m i k : Bytes) (n : ℕ) → p.hkdf s m i n ≡ some k → AreBytes k
  -- What `serde_json` writes for a header it reads back.
  pub json_round_trip :
      (h : VaultHeader) (b : Bytes) → p.header_to_json h ≡ some b → p.header_from_json b ≡ some h
  -- `secure_cmp` accepts exactly equal slices.
  pub cmp_refl : (a : Bytes) → p.secure_cmp a a ≡ Bool.true
  pub cmp_eq : (a b : Bytes) → p.secure_cmp a b ≡ Bool.true → a ≡ b
