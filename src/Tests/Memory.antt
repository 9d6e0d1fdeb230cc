-- ===== src/Tests/Memory.antt =====
-- A run of secrets on a small memory.
use memseal.Prelude.{ℕ, ◌≡◌, refl, true, false, some, [], ◌∷◌, ◌++◌, replicate}
use memseal.Errors.{ok, err, lock}
use memseal.Memory.{
  Locked, new_secret, filled_with, new_region, locked_or_none, zeroed_or_freed, fill_zero, copied,
  copy_from_slice, drop_secret,
}
use memseal.Memory.Owners.{State, created, refused, dropped, started, later, IsAccounted}
use memseal.Memory.Secrets.{SecretResult, new_secret_lem}
use memseal.Memory.Accounted.{Reached-IsAccounted}
use memseal.Tests.Samples.{first_secret, second_secret}
use memseal.Tests.Cells.{Cells, cells, cells-IsMemsec}

abbrev region : ℕ → Locked
region q = record { region = record { ptr = q } }

-- Two secrets are made, a third one is too long to be locked, and the first is dropped.
abbrev cells_1 : Cells
cells_1 = record { live = true; locked = true; bytes = first_secret } ∷ []

abbrev cells_2 : Cells
cells_2 = cells_1 ++ record { live = true; locked = true; bytes = second_secret } ∷ []

first_made : new_secret cells first_secret [] ≡ some (ok (region 0), cells_1)
unfolding new_secret filled_with new_region locked_or_none zeroed_or_freed fill_zero copied
    copy_from_slice
first_made = refl

second_made : new_secret cells second_secret cells_1 ≡ some (ok (region 1), cells_2)
unfolding new_secret filled_with new_region locked_or_none zeroed_or_freed fill_zero copied
    copy_from_slice
second_made = refl

abbrev cells_3 : Cells
cells_3 = cells_2 ++ record { live = false; locked = false; bytes = replicate 65 219 } ∷ []

third_refused : new_secret cells (replicate 65 1) cells_2 ≡ some (err lock, cells_3)
unfolding new_secret filled_with new_region locked_or_none zeroed_or_freed fill_zero copied
    copy_from_slice
third_refused = refl

abbrev last_state : State cells
last_state = record {
  memory = drop_secret cells (region 0) cells_3;
  owned = (region 1, second_secret) ∷ [];
}

Reached-IsAccounted_example : IsAccounted cells [] last_state
Reached-IsAccounted_example = Reached-IsAccounted cells cells-IsMemsec [] last_state (
    later _ _
      (later _ _
        (later _ _ (later _ _ started (created first_secret (region 0) [] cells_1 [] first_made)) (
          created second_secret (region 1) cells_1 cells_2 ((region 0, first_secret) ∷ [])
            second_made))
        (refused (replicate 65 1) lock cells_2 cells_3
          ((region 1, second_secret) ∷ (region 0, first_secret) ∷ []) third_refused))
      (dropped (region 0) cells_3 ((region 1, second_secret) ∷ (region 0, first_secret) ∷ []) refl))

new_secret_lem_example :
    SecretResult cells second_secret cells_1 (new_secret cells second_secret cells_1)
new_secret_lem_example = new_secret_lem cells cells-IsMemsec second_secret cells_1
