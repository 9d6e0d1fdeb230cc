-- ===== src/Codec/Failures.antt =====
-- Every failure of the index decoder is `VaultError::CorruptedData`.
use memseal.Prelude.{ℕ, zero, suc, Bool, true, false, if◌then◌else◌}
use memseal.Bytes.{Bytes}
use memseal.Errors.{Result, ok, err, ◌>>=◌, fail_if, Message, What, VaultError, corrupted_data}
use memseal.HashMap.{HashMap}
use memseal.Types.{IndexEntry}
use memseal.Codec.Reader.{Reader, take, read_le}
use memseal.Codec.Decode.{read_entry, read_entries, decode_index}

-- A success, or a failure with `CorruptedData`.
pub data FailsCorrupted {ℓ} {A : Type ℓ} : Result VaultError A → Type ℓ where
  returns : (a : A) → FailsCorrupted (ok a)
  corrupted : (m : Message) → FailsCorrupted (err (corrupted_data m))

FailsCorrupted-bind {ℓ κ} :
    {A : Type ℓ} {B : Type κ} (m : Result VaultError A) (f : A → Result VaultError B)
    → FailsCorrupted m
    → ((a : A) → FailsCorrupted (f a))
    → FailsCorrupted (m >>= f)
FailsCorrupted-bind _ f (returns a) h = h a
FailsCorrupted-bind _ f (corrupted m) h = corrupted m

FailsCorrupted-fail_if : (b : Bool) (m : Message) → FailsCorrupted (fail_if b (corrupted_data m))
FailsCorrupted-fail_if true m = corrupted m
FailsCorrupted-fail_if false m = returns tt

FailsCorrupted-if {ℓ} :
    {A : Type ℓ} (b : Bool) (x y : Result VaultError A)
    → FailsCorrupted x
    → FailsCorrupted y
    → FailsCorrupted (if b then x else y)
FailsCorrupted-if true x y h k = h
FailsCorrupted-if false x y h k = k

take-FailsCorrupted : (n : ℕ) (what : What) (r : Reader) → FailsCorrupted (take n what r)
unfolding take
take-FailsCorrupted n what r = FailsCorrupted-if _ _ _ (corrupted _) (returns _)

read_le-FailsCorrupted : (w : ℕ) (what : What) (r : Reader) → FailsCorrupted (read_le w what r)
unfolding read_le
read_le-FailsCorrupted w what r = search (FailsCorrupted-bind, take-FailsCorrupted, returns)

ruleset corrupted_rules = (
  FailsCorrupted-bind, FailsCorrupted-fail_if, take-FailsCorrupted, read_le-FailsCorrupted, returns,
  corrupted,
)

read_entry-FailsCorrupted : (r : Reader) → FailsCorrupted (read_entry r)
unfolding read_entry
read_entry-FailsCorrupted r = search corrupted_rules depth 20

read_entries-FailsCorrupted :
    (n : ℕ) (files : HashMap IndexEntry) (r : Reader) → FailsCorrupted (read_entries n files r)
unfolding read_entries
read_entries-FailsCorrupted zero files r = returns _
read_entries-FailsCorrupted (suc n) files r =
    FailsCorrupted-bind _ _ (read_entry-FailsCorrupted r) λ p.
      FailsCorrupted-bind _ _ (FailsCorrupted-fail_if _ _) λ u. read_entries-FailsCorrupted n _ _

-- On every input `decode_index` either succeeds or fails with `CorruptedData`.
pub decode_index-FailsCorrupted : (bytes : Bytes) → FailsCorrupted (decode_index bytes)
unfolding decode_index
decode_index-FailsCorrupted bytes = search (corrupted_rules, read_entries-FailsCorrupted) depth 24
