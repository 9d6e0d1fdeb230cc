-- ===== src/Secret.antt =====
-- `LockedRegion` and `LockedSecret` of src/mem/locked_secret.rs. The model keeps the bytes; page
-- locks, releases and the wipe on drop are in Memory.
use memseal.Prelude.{ℕ, ◌==◌, length, replicate, if◌then◌else◌}
use memseal.Bytes.{Bytes}
use memseal.Errors.{ok, err, LockedSecretError, empty, alloc, lock}
use memseal.Exec.{Exec, ◌>>=◌, ◌>>◌, fail_if, pure}
use memseal.Platform.{Platform, Os, called}
use memseal.Types.{LockedSecret}

module _ (p : Platform) where
  -- `LockedRegion::new`: allocate, lock, and fill with zeros.
  unfoldable pub region_new : ℕ → Exec Os LockedSecretError Bytes
  region_new len os =
      let after_alloc = called os in
      if p.malloc_sized os.calls len
      then (let after_lock = called after_alloc in
          if p.mlock after_alloc.calls len
          then (ok (replicate len 0), after_lock)
          else (err lock, after_lock))
      else (err alloc, after_alloc)

  -- `copy_from_slice` writes `secret` over the zeros.
  unfoldable pub secret_new : Bytes → Exec Os LockedSecretError LockedSecret
  secret_new secret = do
    fail_if (length secret == 0) empty
    zeros ← region_new (length secret)
    pure (record { region = secret })

-- `LockedSecret::with_bytes`
abbrev pub with_bytes {ℓ} : {R : Type ℓ} → LockedSecret → (Bytes → R) → R
with_bytes secret f = f secret.region
