-- ===== src/Owned.antt =====
-- A `&mut self` method runs on its object and the world together; these carry a step on one of the
-- two, or on a field, over to both.
use memseal.Exec.{Exec}
use memseal.Platform.{Os}
use memseal.Types.{Vault, VaultIndex}

pub record Owned (X : Type 0) : Type 0 where
  pub self : X
  pub os : Os

module _ {E A : Type 0} where
  abbrev pub on_os : {X : Type 0} → Exec Os E A → Exec (Owned X) E A
  on_os m s = let (r, os') = m s.os in (r, record s { os = os' })

  abbrev pub on_self : {X : Type 0} → Exec X E A → Exec (Owned X) E A
  on_self m s = let (r, x) = m s.self in (r, record s { self = x })

  -- A method of the field `index` of a vault.
  abbrev pub on_index : Exec (Owned VaultIndex) E A → Exec (Owned Vault) E A
  on_index m s =
      let (r, t) = m (record { self = s.self.index; os = s.os }) in
      (r, record { self = record s.self { index = t.self }; os = t.os })
