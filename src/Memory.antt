-- ===== src/Memory.antt =====
-- `LockedRegion` and `LockedSecret` of src/mem/locked_secret.rs on memory: a region is a pointer, and
-- the bytes, the lock and the release are in the memory behind it. `Secret` keeps the bytes alone.
pub mod Laws
pub mod Secrets
pub mod Owners
pub mod Accounted
use memseal.Prelude.{
  ℕ, Bool, true, false, Option, none, some, length, replicate, ◌==◌, if◌then◌else◌,
}
use memseal.Bytes.{Bytes}
use memseal.Errors.{Result, ok, err, LockedSecretError, empty, alloc, lock}

-- `memsec`, and what its memory holds: `M` is all of memory and a pointer a number. `live`, `locked`
-- and `bytes` observe the allocation behind a pointer; `write` is a write through a `&mut [u8]`.
pub record Memsec (M : Type 0) : Type 0 where
  pub malloc_sized : ℕ → M → Option ℕ × M
  pub mlock : ℕ → ℕ → M → Bool × M
  pub free : ℕ → M → M
  pub live : M → ℕ → Bool
  pub locked : M → ℕ → Bool
  pub bytes : M → ℕ → Bytes
  pub write : ℕ → Bytes → M → M

pub record LockedRegion : Type 0 where
  pub ptr : ℕ

pub record Locked : Type 0 where
  pub region : LockedRegion

module _ {M : Type 0} (m : Memsec M) where
  abbrev as_slice : LockedRegion → M → Bytes
  as_slice region h = m.bytes h region.ptr

  -- `as_mut_slice().fill(0)`, and `as_mut_slice().zeroize()`.
  unfoldable pub fill_zero : LockedRegion → M → M
  fill_zero region h = m.write region.ptr (replicate (length (m.bytes h region.ptr)) 0) h

  -- The test on the answer of `mlock`: a region that is not locked is given back.
  unfoldable pub zeroed_or_freed : ℕ → Bool × M → Result LockedSecretError LockedRegion × M
  unfolding fill_zero
  zeroed_or_freed ptr (true, h) = (ok (record { ptr = ptr }), fill_zero (record { ptr = ptr }) h)
  zeroed_or_freed ptr (false, h) = (err lock, m.free ptr h)

  -- The `ok_or(..)?` on the answer of `malloc_sized`.
  unfoldable pub locked_or_none : ℕ → Option ℕ × M → Result LockedSecretError LockedRegion × M
  locked_or_none len (none, h) = (err alloc, h)
  locked_or_none len (some ptr, h) = zeroed_or_freed ptr (m.mlock ptr len h)

  -- `LockedRegion::new`
  unfoldable pub new_region : ℕ → M → Result LockedSecretError LockedRegion × M
  unfolding locked_or_none
  new_region len h = locked_or_none len (m.malloc_sized len h)

  -- `impl Drop for LockedRegion`
  unfoldable pub drop_region : LockedRegion → M → M
  unfolding fill_zero
  drop_region region h = m.free region.ptr (fill_zero region h)

  -- `as_mut_slice().copy_from_slice(secret)`, which panics on a slice of another length: `none`.
  unfoldable pub copy_from_slice : LockedRegion → Bytes → M → Option M
  copy_from_slice region secret h =
      if length secret == length (m.bytes h region.ptr)
      then some (m.write region.ptr secret h)
      else none

  -- `Ok(Self { region })`, unless the copy has panicked.
  unfoldable pub copied : LockedRegion → Option M → Option (Result LockedSecretError Locked × M)
  copied region none = none
  copied region (some h) = some (ok (record { region = region }), h)

  -- The rest of `LockedSecret::new` behind `LockedRegion::new(..)?`.
  unfoldable pub filled_with :
      Bytes
      → Result LockedSecretError LockedRegion × M
      → Option (Result LockedSecretError Locked × M)
  filled_with secret (err e, h) = some (err e, h)
  filled_with secret (ok region, h) = copied region (copy_from_slice region secret h)

  -- `LockedSecret::new`; `none` is a panic.
  unfoldable pub new_secret : Bytes → M → Option (Result LockedSecretError Locked × M)
  new_secret secret h =
      if length secret == 0
      then some (err empty, h)
      else filled_with secret (new_region (length secret) h)

  -- `LockedSecret::with_bytes`
  abbrev pub with_bytes {ℓ} : {R : Type ℓ} → Locked → (Bytes → R) → M → R
  with_bytes secret f h = f (as_slice secret.region h)

  -- Dropping a `LockedSecret` drops its region.
  unfoldable pub drop_secret : Locked → M → M
  unfolding drop_region
  drop_secret secret h = drop_region secret.region h
