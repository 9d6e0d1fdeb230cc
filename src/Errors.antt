-- ===== src/Errors.antt =====
-- The error types: src/vault/vault_error.rs, `IndexError` (src/vault/vault_index.rs),
-- `AadAeadError` (src/crypto/aad_aead.rs), `RandomError` (src/crypto/utils.rs) and
-- `LockedSecretError` (src/mem/locked_secret.rs). An error text is a value of `Message`, one
-- constructor for each format string, with the numbers that the text shows.
use memseal.Prelude.{ℕ, Bool, true, false, ◌≡◌, refl, ap}

pub data Result {ℓ κ} (E : Type ℓ) (A : Type κ) : Type (ℓ ⊔ κ) where
  ok : A → Result E A
  err : E → Result E A

infixl 5 ◌>>=◌ ◌>>◌
abbrev pub ◌>>=◌ {ℓ κ μ} :
    {E : Type ℓ} {A : Type κ} {B : Type μ} → Result E A → (A → Result E B) → Result E B
ok a >>= f = f a
err e >>= f = err e

abbrev pub ◌>>◌ {ℓ μ} : {E : Type ℓ} {B : Type μ} → Result E (Unit {0}) → Result E B → Result E B
m >> k = m >>= λ _. k

-- An early `return Err(e)` when the test passes.
abbrev pub fail_if {ℓ} : {E : Type ℓ} → Bool → E → Result E (Unit {0})
fail_if true e = err e
fail_if false e = ok tt

-- `Result::map_err`, which `?` applies with the matching `From` conversion.
abbrev pub map_err {ℓ κ μ} :
    {E : Type ℓ} {F : Type κ} {A : Type μ} → (E → F) → Result E A → Result F A
map_err f (ok a) = ok a
map_err f (err e) = err (f e)

pub data RandomError : Type 0 where
  buffer_is_empty fill_failed : RandomError

pub data LockedSecretError : Type 0 where
  empty alloc lock : LockedSecretError

pub data CryptoText : Type 0 where
  hkdf_enc_failed hkdf_hmac_failed hmac_key_invalid hmac_failed : CryptoText

pub data CounterName : Type 0 where
  nonce_counter data_nonce_counter : CounterName

pub data IndexError : Type 0 where
  inconsistent : ℕ → ℕ → IndexError
  full : ℕ → IndexError
  counter_overflow : CounterName → IndexError
  random : RandomError → IndexError
  locked_memory : LockedSecretError → IndexError
  crypto : CryptoText → IndexError

pub data AadAeadError : Type 0 where
  encryption_failed decryption_failed ciphertext_too_short : AadAeadError

-- The labels that `Reader::take` is called with.
pub data What : Type 0 where
  version nonce_counter data_nonce_counter entry_count : What
  entry_key entry_data_counter entry_name_length entry_name_ciphertext : What
  entry_data_length entry_data_ciphertext : What

pub data Message : Type 0 where
  -- index_codec.rs
  index_truncated : What → ℕ → ℕ → Message
  unsupported_index_version : ℕ → Message
  entry_count_exceeds : ℕ → ℕ → Message
  index_declares : ℕ → ℕ → Message
  name_ciphertext_outside data_ciphertext_outside : ℕ → Message
  duplicate_entry_key : Message
  trailing_bytes : ℕ → Message
  too_many_entries entry_key_not_hex entry_name_too_long entry_data_too_long : Message
  invalid_index_json entry_key_not_hex_hmac entry_missing_ciphertext : Message
  -- vault_header.rs and facade.rs
  header_aad_failed header_json_failed : Message
  vault_file_too_large vault_data_exceeds data_too_short data_too_short_for_header : Message
  header_length_exceeds : ℕ → Message
  invalid_header_json header_not_canonical data_too_short_for_legacy_counter : Message
  unsupported_vault_version memory_cost_out_of_range iterations_out_of_range : ℕ → Message
  invalid_key_length : ℕ → Message
  password_too_short : Message
  name_too_long data_too_large : ℕ → Message
  export_too_large : ℕ → Message
  entry_too_short_for_nonce invalid_entry_name : Message
  subkey_length : ℕ → Message
  argon2i_failed argon2id_parameters argon2id_failed : Message
  -- `error.to_string()` in the conversions
  of_index : IndexError → Message
  of_aead : AadAeadError → Message
  of_random : RandomError → Message

-- A failed file operation, by the call that failed.
pub data IoError : Type 0 where
  open_file read_file create_file write_file rename_file : IoError

pub data VaultError : Type 0 where
  invalid_password : VaultError
  invalid_input crypto_error corrupted_data serialization_error : Message → VaultError
  io_error : IoError → VaultError

-- `impl From<IndexError> for VaultError`
abbrev pub from_index_error : IndexError → VaultError
from_index_error (inconsistent a b) = corrupted_data (of_index (inconsistent a b))
from_index_error (full n) = invalid_input (of_index (full n))
from_index_error (counter_overflow c) = crypto_error (of_index (counter_overflow c))
from_index_error (random e) = crypto_error (of_index (random e))
from_index_error (locked_memory e) = crypto_error (of_index (locked_memory e))
from_index_error (crypto t) = crypto_error (of_index (crypto t))

-- `impl From<AadAeadError> for VaultError`
abbrev pub from_aead_error : AadAeadError → VaultError
from_aead_error e = crypto_error (of_aead e)

-- `impl From<RandomError> for VaultError`
abbrev pub from_random_error : RandomError → VaultError
from_random_error e = crypto_error (of_random e)

-- The first of two steps returned a value, and the second one, on it, this result.
abbrev BothSucceed {ℓ κ μ} :
    {E : Type ℓ} {A : Type κ} {B : Type μ} → Result E A → (A → Result E B) → B → Type (ℓ ⊔ κ ⊔ μ)
BothSucceed {A} m f b = (a : A) × (m ≡ ok a) × (f a ≡ ok b)

pub >>=-eq-ok {ℓ κ μ} :
    {E : Type ℓ} {A : Type κ} {B : Type μ} (m : Result E A) (f : A → Result E B) {b : B}
    → (m >>= f) ≡ ok b
    → BothSucceed m f b
>>=-eq-ok (err failure) rest run = cc
>>=-eq-ok (ok first) rest run = (first, refl, run)

pub fail_if-eq-ok {ℓ} :
    {E : Type ℓ} (b : Bool) (e : E) {u : Unit {0}} → fail_if b e ≡ ok u → b ≡ false
fail_if-eq-ok true e h = cc
fail_if-eq-ok false e h = refl

pub ok-injective {ℓ κ} :
    {E : Type ℓ} {A : Type κ} {a b : A} → ◌≡◌ {A = Result E A} (ok a) (ok b) → a ≡ b
ok-injective {E} {A} {a} {b} h = ap (value a) h
  where
    value : A → Result E A → A
    value d (ok x) = x
    value d (err e) = d

pub map_err-eq-ok {ℓ κ μ} :
    {E : Type ℓ} {F : Type κ} {A : Type μ} (f : E → F) (r : Result E A) {a : A}
    → map_err f r ≡ ok a
    → r ≡ ok a
map_err-eq-ok f (ok b) h = cc (ok-injective h)
map_err-eq-ok f (err e) h = cc
