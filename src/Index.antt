-- ===== src/Index.antt =====
-- src/vault/vault_index.rs: the in-memory index. A method that changes the index runs on it, or on
-- the index and the world together; one that only reads takes it as an argument.
pub mod Keys
pub mod Subkeys
pub mod Map
pub mod Valid
use Prim.Native.Nat.{max}
use memseal.Prelude.{ℕ, ◌+◌, Option, none, some, [], ◌∷◌, length, leb, if◌then◌else◌}
use memseal.Constants.{u64_max, max_index_entries, xchacha20_nonce_len}
use memseal.Bytes.{Bytes}
use memseal.Errors.{
  Result, ok, err, IndexError, inconsistent, full, counter_overflow, random, locked_memory,
  CounterName,
}
use memseal.Exec.{Exec, ◌>>=◌, ◌>>◌, map_err, pure, lift, modify, gets}
use memseal.HashMap.{HashMap, get, insert, remove}
use memseal.Platform.{Platform, Os}
use memseal.Types.{IndexEntry, VaultIndex}
use memseal.Owned.{Owned, on_os}
use memseal.Crypto.Random.{secure_bytes_fill, ok_or}
use memseal.Secret.{secret_new}
use memseal.Index.Keys.{derive_subkeys}

-- `u64::checked_add(1)`
abbrev pub checked_succ : ℕ → Option ℕ
checked_succ n = if leb u64_max n then none else some (n + 1)

unfoldable pub next_data_nonce_counter : Exec VaultIndex IndexError ℕ
next_data_nonce_counter = do
  counter ← gets (λ index. index.data_nonce_counter)
  next ← lift (ok_or (checked_succ counter) (counter_overflow CounterName.data_nonce_counter))
  modify (λ index. record index { data_nonce_counter = next })
  pure counter

unfoldable pub insert_by_key : Bytes → IndexEntry → Exec VaultIndex IndexError (Unit {0})
insert_by_key hashed_key entry index =
    let stored : Result IndexError (Unit {0}) × VaultIndex =
      (ok tt, record index { files = insert hashed_key entry index.files }) in
    elim (get hashed_key index.files) [
      | some slot ↦ stored
      | none ↦
          if leb max_index_entries (length index.files)
          then (err (full max_index_entries), index)
          else stored
    ]

unfoldable pub lookup_by_key : VaultIndex → Bytes → Option IndexEntry
lookup_by_key index hashed_key = get hashed_key index.files

-- The entry that was removed, if there was one, and the index after it.
unfoldable pub remove_by_key : Bytes → VaultIndex → Option IndexEntry × VaultIndex
remove_by_key hashed_key index = elim (get hashed_key index.files) [
  | none ↦ (none, index)
  | some entry ↦ (some entry, record index { files = remove hashed_key index.files })
]

-- `files.values().map(|m| m.data_counter).max()`
unfoldable pub max_counter : HashMap IndexEntry → Option ℕ
max_counter [] = none
max_counter ((k, e) ∷ files) = elim (max_counter files) [
  | none ↦ some e.data_counter
  | some n ↦ some (max e.data_counter n)
]

-- The `if let … && …` test on the counters.
unfoldable pub check_counters : ℕ → HashMap IndexEntry → Result IndexError (Unit {0})
check_counters data_nonce_counter files = elim (max_counter files) [
  | none ↦ ok tt
  | some top ↦
      if leb data_nonce_counter top then err (inconsistent data_nonce_counter top) else ok tt
]

module _ (p : Platform) where
  unfoldable pub advance_nonce : Exec (Owned VaultIndex) IndexError (Unit {0})
  advance_nonce = do
    counter ← gets (λ s. s.self.nonce_counter)
    next ← lift (ok_or (checked_succ counter) (counter_overflow CounterName.nonce_counter))
    modify (λ s. record s { self = record s.self { nonce_counter = next } })
    new_nonce ← map_err random (on_os (secure_bytes_fill p xchacha20_nonce_len))
    modify (λ s. record s { self = record s.self { nonce = new_nonce } })

  unfoldable pub from_master_key : Bytes → Bytes → Exec Os IndexError VaultIndex
  from_master_key master_key salt = do
    (enc_sub, hmac_sub) ← lift (derive_subkeys p master_key salt)
    nonce ← map_err random (secure_bytes_fill p xchacha20_nonce_len)
    enc_key ← map_err locked_memory (secret_new p enc_sub)
    hmac_key ← map_err locked_memory (secret_new p hmac_sub)
    pure (record {
      nonce = nonce;
      nonce_counter = 0;
      data_nonce_counter = 0;
      files = [];
      enc_key = enc_key;
      hmac_key = hmac_key;
    })

  unfoldable pub from_subkeys_and_data :
      Bytes → Bytes → Bytes → ℕ → ℕ → HashMap IndexEntry → Exec Os IndexError VaultIndex
  from_subkeys_and_data enc_sub hmac_sub nonce nonce_counter data_nonce_counter files = do
    lift (check_counters data_nonce_counter files)
    enc_key ← map_err locked_memory (secret_new p enc_sub)
    hmac_key ← map_err locked_memory (secret_new p hmac_sub)
    pure (record {
      nonce = nonce;
      nonce_counter = nonce_counter;
      data_nonce_counter = data_nonce_counter;
      files = files;
      enc_key = enc_key;
      hmac_key = hmac_key;
    })
