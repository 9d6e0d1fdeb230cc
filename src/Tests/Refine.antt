-- ===== src/Tests/Refine.antt =====
-- A run of all six calls, compared with the specification.
use memseal.Prelude.{ℕ, ap, ◌≡◌, refl, sym, ◌∙◌, none, some, List, [], ◌∷◌, ◌⊎◌, inl, inr}
use memseal.Bytes.{Bytes, bytes_eq, to_le_bytes}
use memseal.Errors.{ok, ok-injective}
use memseal.Utf8.{from_utf8, is_utf8, scan, after, lead}
use memseal.Owned.{Owned}
use memseal.Codec.Hex.{key_to_hex, hex_char}
use memseal.Types.{VaultIndex, Vault}
use memseal.Index.Keys.{hmac_key_for_name}
use memseal.Vault.Represents.{Separates}
use memseal.Vault.Simulates.{Separated}
use memseal.Vault.Spec.{
  Call, storing, retrieving, removing, exporting, saving, changing_password, perform, transcript,
  Accepts,
}
use memseal.Vault.Counters.{AscendsFrom, bound_counters, bound_counters-AscendsFrom}
use memseal.Vault.Refines.{transcript-Accepts}
use memseal.HashMap.{get, insert}
use memseal.Crypto.Random.{secure_bytes_fill}
use memseal.Crypto.Aead.{seal_with_aad}
use memseal.Index.{next_data_nonce_counter, insert_by_key}
use memseal.Vault.Keys.{build_entry_aad, extract_enc_key}
use memseal.Vault.Store.{store}
use memseal.Tests.Toy.{toy, toy-IsSound}
use memseal.Tests.Samples.{password, mail, bank, first_secret, second_secret, world}
use memseal.Tests.Reached.{made, made_world, made_by_create, made_state}

abbrev pub Names : Bytes → Type 0
Names n = (n ≡ mail) ⊎ (n ≡ bank)

pub Names-from_utf8 : (n : Bytes) → Names n → from_utf8 n ≡ some n
unfolding from_utf8 is_utf8 scan after lead
Names-from_utf8 n (inl h) = rw h refl
Names-from_utf8 n (inr h) = rw h refl

key_of_mail : (index : VaultIndex) → (k : Bytes) × (hmac_key_for_name toy index mail ≡ ok k)
unfolding hmac_key_for_name
key_of_mail index = (_, refl)

key_of_bank : (index : VaultIndex) → (k : Bytes) × (hmac_key_for_name toy index bank ≡ ok k)
unfolding hmac_key_for_name
key_of_bank index = (_, refl)

keys_differ :
    (index : VaultIndex) (k : Bytes)
    → hmac_key_for_name toy index mail ≡ ok k
    → hmac_key_for_name toy index bank ≡ ok k
    → ⊥
unfolding hmac_key_for_name key_to_hex hex_char
keys_differ index k h g = let same = ok-injective (h ∙ sym g) in cc (ap second same)
  where
    second : Bytes → ℕ
    second (a ∷ b ∷ rest) = b
    second rest = 0

toy-Separates : (index : VaultIndex) → Separates toy Names index
toy-Separates index = record {
  keyed = λ n un. elim un [
    | inl h ↦ let (k, g) = key_of_mail index in (k, ap (λ x. hmac_key_for_name toy index x) h ∙ g)
    | inr h ↦ let (k, g) = key_of_bank index in (k, ap (λ x. hmac_key_for_name toy index x) h ∙ g)
  ];
  apart = λ m n k um un hm hn. different m n k um un hm hn;
}
  where
    at :
        (x y k : Bytes)
        → x ≡ y
        → hmac_key_for_name toy index x ≡ ok k
        → hmac_key_for_name toy index y ≡ ok k
    at x y k h g = ap (λ z. hmac_key_for_name toy index z) (sym h) ∙ g

    different :
        (m n k : Bytes)
        → Names m
        → Names n
        → hmac_key_for_name toy index m ≡ ok k
        → hmac_key_for_name toy index n ≡ ok k
        → m ≡ n
    different m n k (inl h) (inl g) hm hn = h ∙ sym g
    different m n k (inr h) (inr g) hm hn = h ∙ sym g
    different m n k (inl h) (inr g) hm hn =
        absurd (keys_differ index k (at m mail k h hm) (at n bank k g hn))
    different m n k (inr h) (inl g) hm hn =
        absurd (keys_differ index k (at n mail k g hn) (at m bank k h hm))

pub toy-Separated : (calls : List Call) (s : Owned Vault) → Separated toy Names calls s
toy-Separated [] s = toy-Separates s.self.index
toy-Separated (call ∷ calls) s =
    (toy-Separates s.self.index, toy-Separated calls (perform toy call s).1)

abbrev calls : List Call
calls =
    storing mail first_secret
    ∷ storing bank second_secret
    ∷ retrieving mail
    ∷ changing_password password password
    ∷ storing mail second_secret
    ∷ exporting
    ∷ removing bank
    ∷ saving (record { parent = none; file_name = bank })
    ∷ retrieving bank
    ∷ retrieving mail
    ∷ []

transcript-Accepts_example : Accepts (λ n. none) (transcript toy calls made_state)
transcript-Accepts_example =
    transcript-Accepts toy Names toy-IsSound Names-from_utf8 password made world made_world calls
      made_by_create (toy-Separated calls made_state)
      (
        inl refl,
        (
          inr refl,
          (inl refl, (tt, (inl refl, (tt, (inr refl, (tt, (inr refl, (inl refl, tt)))))))),
        ),
      )

-- The calls of a session without a change of the password.
abbrev same_key_calls : List Call
same_key_calls =
    storing mail first_secret
    ∷ exporting
    ∷ storing bank second_secret
    ∷ removing mail
    ∷ storing mail second_secret
    ∷ []

bound_counters-AscendsFrom_example : AscendsFrom 0 (bound_counters toy same_key_calls made_state)
bound_counters-AscendsFrom_example =
    bound_counters-AscendsFrom toy same_key_calls made_state (tt, (tt, (tt, (tt, (tt, tt)))))

bound_by_two :
    bound_counters toy (storing mail first_secret ∷ storing bank [] ∷ []) made_state ≡ 0 ∷ 1 ∷ []
unfolding store hmac_key_for_name hex_char key_to_hex next_data_nonce_counter secure_bytes_fill
    build_entry_aad extract_enc_key seal_with_aad insert_by_key get insert to_le_bytes bytes_eq
bound_by_two = refl
