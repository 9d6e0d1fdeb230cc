-- ===== src/Tests/Reopened.antt =====
-- A session, its file, and calls on the vault that is opened from it.
use memseal.Prelude.{◌≡◌, refl, ap, ◌∙◌, none, List, [], ◌∷◌, ◌++◌, inl, inr}
use memseal.Errors.{ok}
use memseal.Types.{Vault}
use memseal.Owned.{Owned}
use memseal.Vault.Export.{export}
use memseal.Vault.Session.{open_vault}
use memseal.Vault.Spec.{Call, storing, retrieving, removing, changing_password, transcript, Accepts}
use memseal.Vault.Reopened.{final_password, reopened-Accepts}
use memseal.Vault.Sessions.{current_password}
use memseal.Tests.Toy.{toy, toy-IsSound}
use memseal.Tests.Samples.{password, mail, bank, first_secret, second_secret, world}
use memseal.Tests.Reached.{made, made_world, made_by_create, made_state}
use memseal.Tests.Session.{toy-HasMemory}
use memseal.Tests.Refine.{Names, Names-from_utf8, toy-Separated}
use memseal.Tests.Sessions.{
  new_password, after_change, changed_password, file, exported_file, short_header, open_vault-file,
}

abbrev before : List Call
before = storing mail first_secret ∷ changing_password password new_password ∷ []

abbrev behind : List Call
behind = retrieving mail ∷ removing mail ∷ storing bank second_secret ∷ retrieving mail ∷ []

password_changed : final_password toy before made_state password ≡ new_password
password_changed =
    ap (λ reply. current_password (changing_password password new_password) reply password)
      changed_password

abbrev reopened : Vault
reopened = (export toy after_change).1.self

abbrev reopened_state : Owned Vault
reopened_state = record { self = reopened; os = (open_vault toy new_password file world).1 }

opened_file :
    open_vault toy (final_password toy before made_state password) file world
    ≡ (ok reopened, reopened_state.os)
opened_file =
    ap (λ word. open_vault toy word file world) password_changed
    ∙ (λ i. (open_vault-file i, (open_vault toy new_password file world).1))

reopened-Accepts_example :
    Accepts (λ n. none) (transcript toy before made_state ++ transcript toy behind reopened_state)
reopened-Accepts_example =
    reopened-Accepts toy Names toy-IsSound toy-HasMemory Names-from_utf8 password made reopened
      world made_world world reopened_state.os before behind file (export toy after_change).1
      made_by_create (toy-Separated before made_state) (inl refl, (tt, tt)) short_header
      exported_file opened_file (toy-Separated behind reopened_state)
      (inl refl, (inl refl, (inr refl, (inl refl, tt))))
