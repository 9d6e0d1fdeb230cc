-- ===== src/Vault/Atomic.antt =====
-- The disk behind a `save`: the target holds the old or the new contents, whatever fails.
use memseal.Prelude.{
  ℕ, ◌≡◌, ◌≢◌, refl, sym, ap, ◌∙◌, subst, true, false, ◌&&◌, Option, some, [], take, ◌++◌, arith,
  if◌then◌else◌,
}
use memseal.Bytes.{Bytes, bytes_eq}
use memseal.Bytes.Equality.{bytes_eq_ne}
use memseal.Errors.{Result, ok, err, VaultError, from_random_error}
use memseal.Exec.{Exec, own_post, state_post}
use memseal.HashMap.{get, remove}
use memseal.HashMap.Laws.{get-insert, get-insert_same, get-insert_other, get-remove_other}
use memseal.Platform.{Platform, Os}
use memseal.Codec.Hex.{key_to_hex}
use memseal.Crypto.Random.{secure_bytes_fill}
use memseal.Fuzzing.{is_ok}
use memseal.Vault.Disk.{
  FilePath, dir_of, join, place, tmp_prefix, create_new, write_and_sync, remove_file, rename,
  or_remove, write_file_atomically,
}

-- The temporary file of a save for one random suffix.
abbrev pub tmp_path : FilePath → Bytes → Bytes
tmp_path path suffix = join (dir_of path) (tmp_prefix ++ key_to_hex suffix)

module _ (p : Platform) where
  fill-disk : (n : ℕ) (os : Os) → (secure_bytes_fill p n os).1.disk ≡ os.disk
  unfolding secure_bytes_fill
  fill-disk n os = ground arith

  get-create_new :
      (at j : Bytes) (os : Os)
      → bytes_eq at j ≡ false
      → get j (create_new p at os).1.disk ≡ get j os.disk
  unfolding create_new
  get-create_new at j os apart = ground (arith, get-insert_other at j [] os.disk apart)

  get-write_and_sync :
      (at j bytes : Bytes) (os : Os)
      → bytes_eq at j ≡ false
      → get j (write_and_sync p at bytes os).1.disk ≡ get j os.disk
  unfolding write_and_sync
  get-write_and_sync at j bytes os apart = ground (
    arith,
    get-insert_other at j bytes os.disk apart,
    get-insert_other at j (take (p.partial_write os.calls) bytes) os.disk apart,
  )

  written :
      (at bytes : Bytes) (os : Os)
      → is_ok (write_and_sync p at bytes os).0 ≡ true
      → get at (write_and_sync p at bytes os).1.disk ≡ some bytes
  unfolding write_and_sync
  written at bytes os h = ground (arith, get-insert_same at bytes os.disk)

  get-remove_file :
      (at j : Bytes) (os : Os)
      → bytes_eq at j ≡ false
      → get j (remove_file p at os).disk ≡ get j os.disk
  unfolding remove_file
  get-remove_file at j os apart = ground (arith, get-remove_other at j os.disk apart)

  -- What `rename` leaves at any other path than its source.
  get-rename :
      (from to j bytes : Bytes) (os : Os)
      → bytes_eq from j ≡ false
      → get from os.disk ≡ some bytes
      → let (r, after) = rename p from to os in
        get j after.disk ≡ (if is_ok r && bytes_eq to j then some bytes else get j os.disk)
  unfolding rename
  get-rename from to j bytes os apart there =
      ground
        (arith, get-insert to j bytes (remove from os.disk), get-remove_other from j os.disk apart)

  get-or_remove :
      (at j : Bytes) (step : Exec Os VaultError (Unit {0})) (os : Os)
      → bytes_eq at j ≡ false
      → let (r, after) = or_remove p at step os in
        (is_ok r ≡ is_ok (step os).0) × (get j after.disk ≡ get j (step os).1.disk)
  get-or_remove at j step os apart = by_result (step os)
    where
      by_result :
          (q : Result VaultError (Unit {0}) × Os)
          → let (r, after) : Result VaultError (Unit {0}) × Os = elim q.0 [
            | ok u ↦ (ok tt, q.1)
            | err e ↦ (err e, remove_file p at q.1)
          ] in
            (is_ok r ≡ is_ok q.0) × (get j after.disk ≡ get j q.1.disk)
      by_result (ok u, t) = (refl, refl)
      by_result (err e, t) = (refl, get-remove_file at j t apart)

  or_remove-ok :
      (at : Bytes) (step : Exec Os VaultError (Unit {0})) (os t : Os) (u : Unit {0})
      → or_remove p at step os ≡ (ok u, t)
      → step os ≡ (ok u, t)
  or_remove-ok at step os t u h = by_result (step os) h
    where
      by_result :
          (q : Result VaultError (Unit {0}) × Os)
          → ◌≡◌ {A = Result VaultError (Unit {0}) × Os}
              (elim q.0 [ ok u ↦ (ok tt, q.1) | err e ↦ (err e, remove_file p at q.1) ])
              (ok u, t)
          → q ≡ (ok u, t)
      by_result (ok w, s) e = e
      by_result (err x, s) e = cc

  -- For a path `j` that is no temporary file of the save, whatever the random suffix: whether
  -- `write_file_atomically` succeeds or fails at any step, `j` holds afterwards what it held
  -- before, except that the target holds all the new bytes when the call succeeds.
  pub get-write_file_atomically :
      (path : FilePath) (bytes j : Bytes) (os : Os)
      → ((suffix : Bytes) → tmp_path path suffix ≢ j)
      → let (r, after) = write_file_atomically p path bytes os in
        get j after.disk
        ≡ (if is_ok r && bytes_eq (place path) j then some bytes else get j os.disk)
  unfolding write_file_atomically
  get-write_file_atomically path bytes j os apart =
      state_post Q from_random_error (secure_bytes_fill p 8 os) _
        (λ x t h. ap (get j) (ap (λ q. q.1.disk) (sym h) ∙ fill-disk 8 os))
        λ suffix s1 t1.
          let tmp = tmp_path path suffix in
          let ne = bytes_eq_ne tmp j (apart suffix) in
          let same1 : get j s1.disk ≡ get j os.disk =
            ap (get j) (ap (λ q. q.1.disk) (sym t1) ∙ fill-disk 8 os) in
          let create = get-create_new tmp j s1 ne in
          own_post Q (create_new p tmp s1) _
            (λ x t h. ap (λ q. get j q.1.disk) (sym h) ∙ (create ∙ same1))
            λ u2 s2 t2.
              let same2 : get j s2.disk ≡ get j os.disk =
                ap (λ q. get j q.1.disk) (sym t2) ∙ (create ∙ same1) in
              let write =
                (get-or_remove tmp j (write_and_sync p tmp bytes) s2 ne).1
                ∙ get-write_and_sync tmp j bytes s2 ne in
              own_post Q (or_remove p tmp (write_and_sync p tmp bytes) s2) _
                (λ x t h. ap (λ q. get j q.1.disk) (sym h) ∙ (write ∙ same2))
                λ u3 s3 t3.
                  let same3 : get j s3.disk ≡ get j os.disk =
                    ap (λ q. get j q.1.disk) (sym t3) ∙ (write ∙ same2) in
                  let run = or_remove-ok tmp (write_and_sync p tmp bytes) s2 s3 u3 t3 in
                  let there : get tmp s3.disk ≡ some bytes =
                    ap (λ q. get tmp q.1.disk) (sym run)
                    ∙ written tmp bytes s2 (ap (λ q. is_ok q.0) run) in
                  let (outcome, kept) = get-or_remove tmp j (rename p tmp (place path)) s3 ne in
                  let renamed = get-rename tmp (place path) j bytes s3 ne there in
                  let moved =
                    moved_to (or_remove p tmp (rename p tmp (place path)) s3)
                      (rename p tmp (place path) s3) outcome kept renamed same3 in
                  own_post Q (or_remove p tmp (rename p tmp (place path)) s3) _
                    (λ x t h. subst Q h moved) λ u4 s4 t4. subst Q t4 moved
    where
      Q : Result VaultError (Unit {0}) × Os → Type 0
      Q q =
          get j q.1.disk
          ≡ (if is_ok q.0 && bytes_eq (place path) j then some bytes else get j os.disk)

      moved_to :
          (q r : Result VaultError (Unit {0}) × Os) {before : Option Bytes}
          → is_ok q.0 ≡ is_ok r.0
          → get j q.1.disk ≡ get j r.1.disk
          → get j r.1.disk ≡ (if is_ok r.0 && bytes_eq (place path) j then some bytes else before)
          → before ≡ get j os.disk
          → Q q
      moved_to q r {before} outcome kept renamed same =
          kept
          ∙ (renamed
              ∙ (ap (λ b. if b && bytes_eq (place path) j then some bytes else before) (sym outcome)
                  ∙ ap
                      (λ (b : Option Bytes).
                        if is_ok q.0 && bytes_eq (place path) j then some bytes else b)
                      same))
