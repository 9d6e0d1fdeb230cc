-- ===== src/Tests/Toy.antt =====
-- A platform for runs: every call succeeds, a sealed text carries a tag made of its key, and the
-- keys are constant bytes computed from the password.
use memseal.Prelude.{
  All-append, All-take, ℕ, zero, suc, subst, ◌+◌, ◌-◌, ◌%◌, ◌*◌, ◌/◌, ◌<◌, ◌≡◌, refl, sym, ap, ◌∙◌,
  Bool, true, false, ◌&&◌, Option, none, some, [], ◌∷◌, ◌++◌, length, take, drop, replicate, ltb,
  ◌==◌, if◌then◌else◌, arith, length-append, length-take, length-drop, length-replicate,
  take-append, drop-append,
}
use memseal.Bytes.{IsByte, Bytes, AreBytes, bytes_eq, from_le_bytes}
use memseal.Bytes.Equality.{bytes_eq_refl, bytes_eq→eq}
use memseal.Platform.{Platform, IsSound}
use memseal.Types.{VaultHeader}
use memseal.Codec.Hex.{key_to_hex}
use memseal.Crypto.Aead.{seal_with_aad}
use memseal.Index.Keys.{hmac_key_for_name}
use memseal.Vault.Total.{Works}

abbrev are_bytes : Bytes → Bool
are_bytes [] = true
are_bytes (b ∷ bs) = ltb b 256 && are_bytes bs

-- The text itself, where it consists of bytes.
abbrev checked : Bytes → Option Bytes
checked bs = if are_bytes bs then some bs else none

-- The first bytes, filled up with zeros.
abbrev pub padded : ℕ → Bytes → Bytes
padded n bs = take n (bs ++ replicate n 0)

abbrev of_length : ℕ → Bytes → Option Bytes
of_length n bs = if length bs == n then some bs else none

abbrev pub toy_open : Bytes → Bytes → Option Bytes
toy_open key c =
    let n = length c - 16 in if bytes_eq (drop n c) (padded 16 key) then some (take n c) else none

abbrev header_bytes : VaultHeader → Bytes
header_bytes h =
    h.version
    ∷ h.kdf_iterations
    ∷ h.kdf_memory_cost % 256
    ∷ h.kdf_memory_cost / 256 % 256
    ∷ h.kdf_memory_cost / 65536
    ∷ h.key_length
    ∷ h.kdf_salt

abbrev bytes_header : Bytes → Option VaultHeader
bytes_header (v ∷ i ∷ a ∷ b ∷ c ∷ k ∷ salt) = some (record {
  version = v;
  kdf_salt = salt;
  kdf_iterations = i;
  kdf_memory_cost = a + 256 * b + 65536 * c;
  key_length = k;
})
bytes_header _ = none

abbrev pub toy : Platform
toy = record {
  try_fill_bytes = λ i n. some (replicate n (i % 256));
  malloc_sized = λ i n. true;
  mlock = λ i n. true;
  secret_key_from_slice = of_length 32;
  nonce_from_slice = of_length 24;
  aead_seal = λ k n t a. checked (t ++ padded 16 k);
  aead_open = λ k n c a. toy_open k c;
  hkdf = λ s m i n. some (replicate n ((length i + from_le_bytes (take 1 m)) % 256));
  hmac_key_from_slice = λ k. some k;
  hmac = λ k m. checked (padded 32 m);
  secure_cmp = bytes_eq;
  argon2i = λ pw s i m n. some (replicate n (length pw));
  argon2_params = λ m i l n. true;
  argon2id = λ pw s m i l n. some (replicate n (length pw));
  header_to_json = λ h. some (header_bytes h);
  header_from_json = bytes_header;
  index_from_json = λ b. none;
  io = λ i. true;
  partial_write = λ i. 0;
}

bytes_header-header_bytes : (h : VaultHeader) → bytes_header (header_bytes h) ≡ some h
bytes_header-header_bytes h = ap (λ m. some (record h { kdf_memory_cost = m })) whole
  where
    m : ℕ
    m = h.kdf_memory_cost

    whole : m % 256 + 256 * (m / 256 % 256) + 65536 * (m / 65536) ≡ m
    whole = omega arith

are_bytes-AreBytes : (bs : Bytes) → are_bytes bs ≡ true → AreBytes bs
are_bytes-AreBytes [] h = tt
are_bytes-AreBytes (b ∷ bs) h = ground (arith, are_bytes-AreBytes bs)

pub checked-eq : (bs out : Bytes) → checked bs ≡ some out → (out ≡ bs) × AreBytes out
checked-eq bs out h = ground (arith, are_bytes-AreBytes bs)

of_length-eq : (n : ℕ) (bs out : Bytes) → of_length n bs ≡ some out → out ≡ bs
of_length-eq n bs out h = ground arith

replicate-AreBytes : (n b : ℕ) → b < 256 → AreBytes (replicate n b)
replicate-AreBytes zero b h = tt
replicate-AreBytes (suc n) b h = (h, replicate-AreBytes n b h)

pub length-padded : (n : ℕ) (bs : Bytes) → length (padded n bs) ≡ n
length-padded n bs = omega (
  arith,
  length-take n (bs ++ replicate n 0),
  length-append bs (replicate n 0),
  length-replicate {A = ℕ} n 0,
)

toy_open-sealed : (key t : Bytes) → toy_open key (t ++ padded 16 key) ≡ some t
toy_open-sealed key t =
    opened (length (t ++ padded 16 key) - 16)
      (omega (arith, length-append t (padded 16 key), length-padded 16 key))
  where
    opened :
        (n : ℕ)
        → n ≡ length t
        → (if bytes_eq (drop n (t ++ padded 16 key)) (padded 16 key)
            then some (take n (t ++ padded 16 key))
            else none)
          ≡ some t
    opened n same =
        rw
          (
            ap (λ m. drop m (t ++ padded 16 key)) same ∙ drop-append t (padded 16 key),
            ap (λ m. take m (t ++ padded 16 key)) same ∙ take-append t (padded 16 key),
            bytes_eq_refl (padded 16 key),
          )
          refl

pub some-injective : {A : Type 0} {a b : A} → ◌≡◌ {A = Option A} (some a) (some b) → b ≡ a
some-injective h = cc

toy_open-length : (key t c : Bytes) → toy_open key c ≡ some t → length c ≡ length t + 16
toy_open-length key t c h = by_test (bytes_eq (drop (length c - 16) c) (padded 16 key)) refl h
  where
    by_test :
        (b : Bool)
        → bytes_eq (drop (length c - 16) c) (padded 16 key) ≡ b
        → (if b then some (take (length c - 16) c) else none) ≡ some t
        → length c ≡ length t + 16
    by_test true same e = omega (
      arith,
      ap length (bytes_eq→eq (drop (length c - 16) c) (padded 16 key) same),
      length-drop (length c - 16) c,
      length-padded 16 key,
      ap length (some-injective e),
      length-take (length c - 16) c,
    )
    by_test false same e = cc

pub toy-IsSound : IsSound toy
toy-IsSound = record {
  fill_length = λ i n b h. ap length (some-injective h) ∙ length-replicate n (i % 256);
  fill_bytes = λ i n b h.
      subst AreBytes (sym (some-injective h)) (replicate-AreBytes n (i % 256) (omega arith));
  secret_key = λ k k' h. of_length-eq 32 k k' h;
  nonce = λ n n' h. of_length-eq 24 n n' h;
  seal_length = λ k n t a c h.
      ap length (checked-eq (t ++ padded 16 k) c h).0
      ∙ (length-append t (padded 16 k) ∙ ap (λ x. length t + x) (length-padded 16 k));
  seal_bytes = λ k n t a c h. (checked-eq (t ++ padded 16 k) c h).1;
  open_seal = λ k n t a c h.
      ap (toy_open k) {y = t ++ padded 16 k} (checked-eq (t ++ padded 16 k) c h).0
      ∙ toy_open-sealed k t;
  open_length = λ k n t a c h. toy_open-length k t c h;
  hmac_length = λ k m t h. ap length (checked-eq (padded 32 m) t h).0 ∙ length-padded 32 m;
  hmac_bytes = λ k m t h. (checked-eq (padded 32 m) t h).1;
  hkdf_length = λ s m i k n h.
      ap length (some-injective h)
      ∙ length-replicate n ((length i + from_le_bytes (take 1 m)) % 256);
  hkdf_bytes = λ s m i k n h.
      subst AreBytes (sym (some-injective h))
        (replicate-AreBytes n ((length i + from_le_bytes (take 1 m)) % 256) (omega arith));
  json_round_trip = λ h b e. ap bytes_header (some-injective e) ∙ bytes_header-header_bytes h;
  cmp_refl = bytes_eq_refl;
  cmp_eq = bytes_eq→eq;
}

are_bytes-true : (bs : Bytes) → AreBytes bs → are_bytes bs ≡ true
are_bytes-true [] h = refl
are_bytes-true (b ∷ bs) h = ground (arith, are_bytes-true bs)

padded-AreBytes : (n : ℕ) (bs : Bytes) → AreBytes bs → AreBytes (padded n bs)
padded-AreBytes n bs h =
    All-take IsByte n (bs ++ replicate n 0)
      (All-append IsByte bs (replicate n 0) h (replicate-AreBytes n 0 (omega arith)))

checked_runs : (bs : Bytes) → AreBytes bs → checked bs ≡ some bs
checked_runs bs h = rw (are_bytes-true bs h) refl

pub toy-Works : Works toy
unfolding hmac_key_for_name seal_with_aad
toy-Works = record {
  fills = λ i n. (replicate n (i % 256), refl);
  keys = λ index name bytes. (
    key_to_hex (padded 32 name),
    (rw (checked_runs (padded 32 name) (padded-AreBytes 32 name bytes)) refl),
  );
  seals = λ k n t a kb tb k32 n24 small. (
    t ++ padded 16 k,
    (rw
        (
          k32,
          n24,
          checked_runs (t ++ padded 16 k)
              (All-append IsByte t (padded 16 k) tb (padded-AreBytes 16 k kb)),
        )
        refl),
  );
}
