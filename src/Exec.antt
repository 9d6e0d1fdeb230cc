-- ===== src/Exec.antt =====
-- Code that changes a state and may fail: the state comes back beside an error too, since what was
-- written before an early return stays written.
use memseal.Prelude.{◌≡◌, refl, Bool}
use memseal.Errors.{Result, ok, err, map_err as map_err_result, fail_if as fail_if_result}

abbrev pub Exec {ℓ κ μ} : Type ℓ → Type κ → Type μ → Type (ℓ ⊔ κ ⊔ μ)
Exec S E A = S → Result E A × S

module _ {ℓ κ} {S : Type ℓ} {E : Type κ} where
  abbrev pub continue {μ ν} : {A : Type μ} {B : Type ν} → Result E A → (A → Exec S E B) → Exec S E B
  continue (ok a) f s = f a s
  continue (err e) f s = (err e, s)

  infixl 5 ◌>>=◌ ◌>>◌
  abbrev pub ◌>>=◌ {μ ν} : {A : Type μ} {B : Type ν} → Exec S E A → (A → Exec S E B) → Exec S E B
  ◌>>=◌ m f s = let (r, s') = m s in continue r f s'

  abbrev pub ◌>>◌ {ν} : {B : Type ν} → Exec S E (Unit {0}) → Exec S E B → Exec S E B
  m >> k = m >>= λ _. k

  abbrev pub pure {μ} : {A : Type μ} → A → Exec S E A
  pure a s = (ok a, s)

  abbrev pub lift {μ} : {A : Type μ} → Result E A → Exec S E A
  lift r s = (r, s)

  abbrev pub fail_if : Bool → E → Exec S E (Unit {0})
  fail_if b e s = (fail_if_result b e, s)

  abbrev pub gets {μ} : {A : Type μ} → (S → A) → Exec S E A
  gets f s = (ok (f s), s)

  abbrev pub modify : (S → S) → Exec S E (Unit {0})
  modify f s = (ok tt, f s)

  abbrev pub map_err {ν μ} : {F : Type ν} {A : Type μ} → (E → F) → Exec S E A → Exec S F A
  map_err f m s = let (r, s') = m s in (map_err_result f r, s')

module _ {ℓ κ μ ν} {S : Type ℓ} {E : Type κ} {F : Type ν} {A : Type μ} where
  pub mapped :
      (f : E → F) (q : Result E A × S) {s' : S} {a : A}
      → ◌≡◌ {A = Result F A × S} (map_err_result f q.0, q.1) (ok a, s')
      → q ≡ (ok a, s')
  mapped f (ok b, t) h = cc
  mapped f (err x, t) h = cc

-- The inversion of a successful step, for a goal that is proved from the parts: what the step returned
-- and the state that it left are variables there, so long runs stay small.
module _ {ℓ κ μ ν τ} {S : Type ℓ} {F : Type κ} {A : Type μ} {B : Type ν} {s' : S} {b : B}
    (P : Type τ) where
  pub pure_step :
      (r : Result F A) (f : A → Exec S F B) {s : S}
      → continue r f s ≡ (ok b, s')
      → ((a : A) → r ≡ ok a → f a s ≡ (ok b, s') → P)
      → P
  pure_step (ok a) f h k = k a refl h
  pure_step (err e) f h k = cc

  pub own_step :
      (q : Result F A × S) (f : A → Exec S F B)
      → continue q.0 f q.1 ≡ (ok b, s')
      → ((a : A) (t : S) → q ≡ (ok a, t) → f a t ≡ (ok b, s') → P)
      → P
  own_step (ok a, t) f h k = k a t refl h
  own_step (err x, t) f h k = cc

  pub state_step {ε} :
      {E : Type ε} (e : E → F) (q : Result E A × S) (f : A → Exec S F B)
      → continue (map_err_result e q.0) f q.1 ≡ (ok b, s')
      → ((a : A) (t : S) → q ≡ (ok a, t) → f a t ≡ (ok b, s') → P)
      → P
  state_step e (ok a, t) f h k = k a t refl h
  state_step e (err x, t) f h k = cc

-- A property of how a run ends, shown for the early return and for the rest of the run.
module _ {ℓ κ μ ν τ} {S : Type ℓ} {F : Type κ} {A : Type μ} {B : Type ν}
    (Q : Result F B × S → Type τ) where
  pub pure_post :
      (r : Result F A) (f : A → Exec S F B) (s : S)
      → ((e : F) → r ≡ err e → Q (err e, s))
      → ((a : A) → r ≡ ok a → Q (f a s))
      → Q (continue r f s)
  pure_post (ok a) f s bad good = good a refl
  pure_post (err e) f s bad good = bad e refl

  pub own_post :
      (q : Result F A × S) (f : A → Exec S F B)
      → ((x : F) (t : S) → q ≡ (err x, t) → Q (err x, t))
      → ((a : A) (t : S) → q ≡ (ok a, t) → Q (f a t))
      → Q (continue q.0 f q.1)
  own_post (ok a, t) f bad good = good a t refl
  own_post (err x, t) f bad good = bad x t refl

  pub state_post {ε} :
      {E : Type ε} (e : E → F) (q : Result E A × S) (f : A → Exec S F B)
      → ((x : E) (t : S) → q ≡ (err x, t) → Q (err (e x), t))
      → ((a : A) (t : S) → q ≡ (ok a, t) → Q (f a t))
      → Q (continue (map_err_result e q.0) f q.1)
  state_post e (ok a, t) f bad good = good a t refl
  state_post e (err x, t) f bad good = bad x t refl
