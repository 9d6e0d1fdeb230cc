-- ===== src/Crypto/Random.antt =====
-- `secure_bytes_fill` of src/crypto/utils.rs.
use memseal.Prelude.{ℕ, ◌==◌, Option, none, some, if◌then◌else◌}
use memseal.Bytes.{Bytes}
use memseal.Errors.{Result, ok, err, RandomError, buffer_is_empty, fill_failed}
use memseal.Exec.{Exec}
use memseal.Platform.{Platform, Os, called}

abbrev pub ok_or {ℓ κ} : {E : Type ℓ} {A : Type κ} → Option A → E → Result E A
ok_or none e = err e
ok_or (some a) e = ok a

module _ (p : Platform) where
  -- The buffer is given by its length, and the filled buffer is returned.
  unfoldable pub secure_bytes_fill : ℕ → Exec Os RandomError Bytes
  secure_bytes_fill n os =
      if n == 0
      then (err buffer_is_empty, os)
      else (ok_or (p.try_fill_bytes os.calls n) fill_failed, called os)
