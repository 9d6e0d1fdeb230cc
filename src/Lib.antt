-- ===== src/Lib.antt =====
-- memseal: an encrypted vault of named secrets in one file.
--
-- The program. `Vault` (src/vault/facade.rs) holds a header with the parameters of the key derivation
-- and an index (src/vault/vault_index.rs): a map from the HMAC of a name to the two ciphertexts of an
-- entry, two counters and two subkeys in locked memory (src/mem/locked_secret.rs). `store`, `retrieve`,
-- `with_secret` and `remove` work on the index; `export` renews the nonce, encodes the index
-- (src/vault/index_codec.rs), seals it (src/crypto/aad_aead.rs) with the header
-- (src/vault/vault_header.rs) as associated data and puts the file together; `open` takes it apart;
-- `save` and `load` do the same with a file; `change_password` re-encrypts every entry under new keys.
--
-- The files. Constants, Types and Errors hold the constants, structs and error types. Codec models
-- src/vault/index_codec.rs: Hex, Encode, Reader, Decode, Sizes and Legacy are its functions; Layout,
-- ReadBack, RoundTrip, Canonical, Failures and Upgrade are the proofs. Index and Index/Keys model
-- src/vault/vault_index.rs, with Map and Valid for proofs. Crypto models src/crypto, Secret
-- src/mem/locked_secret.rs, Header src/vault/vault_header.rs, Envelope the function `parse_envelope`
-- with proofs in Envelope/Bounds, RoundTrip and Canonical. Vault/Keys, Store, Secrets, Remove, Export,
-- Session and Disk model the functions of src/vault/facade.rs; the other modules of Vault are proofs.
-- Vault/Reached has the sequences of calls on a vault as a step relation and Vault/Sessions the same
-- with the current password; Vault/Spec is the specification, a map from names to plaintexts, and
-- Vault/Represents, Reading, Shows, Refilled, Simulates, Refines and Reopened show that the vault
-- implements it.
-- Memory models src/mem/locked_secret.rs again, with pointers, locks and release; Memory/Laws is what
-- it relies on, Memory/Secrets and Accounted are the proofs, and Memory/Owners has the sequences of
-- constructions and drops.
-- Fuzzing models src/fuzzing.rs. Utf8 is the test behind `String::from_utf8`, HashMap the standard
-- map, Bytes the integers in little-endian order. Tests has a small platform and concrete runs.
--
-- State. A `&mut self` method is a function from its object, with the world where it needs it, to a
-- result and the object after it (Exec, Owned), so what was written before an early return stays. The
-- world (`Os`) is a disk and the number of requests made to the operating system. A `u8` is a natural
-- number below 256 (`AreBytes` where a proof needs it), a name is a `str` by its bytes, a hash map an
-- association list with any order of its keys, an error text a value of `Message`.
--
-- Parameters. `Platform` stands for the code that is not in the repository: random bytes, memory
-- locking, the AEAD, HKDF, HMAC, Argon2, the JSON of `serde_json`, and whether each file operation
-- succeeds. `IsSound` lists what the proofs rely on, such as that a sealed text opens under the same
-- key, nonce and associated data; `Works` (Vault/Total) says that the calls succeed, and `HasMemory`
-- (Vault/Reopen) that memory can be locked and `Derives` (Vault/Rekeys) that keys can be derived.
-- `Memsec` and its laws (Memory/Laws) are `memsec` for Memory. Tests/Toy and Tests/Cells show that they
-- can hold. Nothing is assumed on secrecy; where two names must not have one HMAC key, `Separates`
-- (Vault/Represents) or `AllApart` (Vault/Rekeyed) says so of the names that are used, and where what
-- one key seals must not open under another, Vault/Denied says so of these two keys.
--
-- Bounds. All loops are structural recursion over the entries; `read_entries` runs on the declared
-- entry count, so there is no fuel. Counters are kept below 2^64 by the tests of the code
-- (`checked_succ`); the length prefix of the header is taken modulo 2^32.
--
-- Not modelled: wiping of buffers outside locked memory, `Debug`, file modes and links, the order in
-- which a crash loses writes, the benchmarks and the fuzz drivers.
pub mod Prelude
pub mod Constants
pub mod Bytes
pub mod Errors
pub mod HashMap
pub mod Types
pub mod Codec
pub mod Exec
pub mod Memory
pub mod Platform
pub mod Crypto
pub mod Secret
pub mod Header
pub mod Envelope
pub mod Utf8
pub mod Owned
pub mod Index
pub mod Vault
pub mod Fuzzing
pub mod Tests
