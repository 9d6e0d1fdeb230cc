-- ===== src/Vault/Refines.antt =====
-- The vault implements its specification.
use memseal.Prelude.{◌≡◌, refl, subst, ◌++◌, append-nil, none, some, List, [], ◌∷◌, All}
use memseal.Bytes.{Bytes}
use memseal.Errors.{ok}
use memseal.HashMap.{get}
use memseal.Platform.{Platform, IsSound, Os}
use memseal.Types.{Vault}
use memseal.Utf8.{from_utf8}
use memseal.Owned.{Owned}
use memseal.Vault.Store.{store}
use memseal.Vault.Session.{create, change_password}
use memseal.Vault.Represents.{Separates}
use memseal.Vault.Fresh.{fresh_vault-IsFresh}
use memseal.Vault.Changed.{create-fresh_vault}
use memseal.Vault.Refilled.{IsFresh-Shows}
use memseal.Vault.Spec
use memseal.Vault.Simulates.{
  Uses, Separated, Separated-head, Shown, Refined, export-Shown, save-Shown, store-Refined,
  retrieve-Refined, remove-Refined, change_password-Refined,
}

module _ (p : Platform) (U : Bytes → Type 0) (sound : IsSound p)
    (text : (n : Bytes) → U n → from_utf8 n ≡ some n) where
  perform-Refined :
      (call : Spec.Call) (s : Owned Vault) (view : Spec.View)
      → Separates p U s.self.index
      → Separates p U (Spec.perform p call s).1.self.index
      → Uses p U call
      → Shown p U s view
      → Refined p U view call (Spec.perform p call s)
  perform-Refined (Spec.storing name plaintext) s view before after un shown =
      store-Refined p U sound text name plaintext s view before un shown (store p name plaintext s)
        refl
  perform-Refined (Spec.retrieving name) s view before after un shown =
      retrieve-Refined p U sound text name s view before un shown
  perform-Refined (Spec.removing name) s view before after un shown =
      remove-Refined p U sound text name s view before un shown
  perform-Refined Spec.exporting s view before after un shown =
      (view, Spec.has_exported view _, export-Shown p U s view shown)
  perform-Refined (Spec.saving path) s view before after un shown =
      (view, Spec.has_saved view path _, save-Shown p U path s view shown)
  perform-Refined (Spec.changing_password current new) s view before after un shown = (
    view,
    Spec.has_changed_password view current new _,
    change_password-Refined p U sound text current new s view after shown
        (change_password p current new s) refl,
  )

  -- The replies so far are allowed, and the state behind them shows the map that the specification has.
  pub record IsFollowed (view : Spec.View) (replies : List (Spec.Call × Spec.Reply))
      (t : Owned Vault) : Type 0 where
    pub after : Spec.View
    pub shown : Shown p U t after
    pub accepts :
        (rest : List (Spec.Call × Spec.Reply))
        → Spec.Accepts after rest
        → Spec.Accepts view (replies ++ rest)

  pub run-IsFollowed :
      (calls : List Spec.Call) (s : Owned Vault) (view : Spec.View)
      → Separated p U calls s
      → All (Uses p U) calls
      → Shown p U s view
      → IsFollowed view (Spec.transcript p calls s) (Spec.final p calls s)
  run-IsFollowed [] s view separated uses shown = record {
    after = view;
    shown = shown;
    accepts = λ rest h. h;
  }
  run-IsFollowed (call ∷ calls) s view separated uses shown =
      let t = (Spec.perform p call s).1 in
      let (between, allows, shown_between) =
        perform-Refined call s view separated.0 (Separated-head p U calls t separated.1) uses.0
          shown in
      let d = run-IsFollowed calls t between separated.1 uses.1 shown_between in
      record {
        after = d.after;
        shown = d.shown;
        accepts = λ rest h. Spec.next view between call _ _ allows (d.accepts rest h);
      }

  pub created-Shown :
      (password : Bytes) (v : Vault) (os os' : Os)
      → create p password os ≡ (ok v, os')
      → Shown p U (record { self = v; os = os' }) (λ n. none)
  unfolding get
  created-Shown password v os os' h = (
    [],
    IsFresh-Shows p U v
        (fresh_vault-IsFresh p sound password v os os' (create-fresh_vault p password v os os' h)),
    λ n. refl,
  )

  -- On a platform that keeps the laws of `IsSound`, for names that are UTF-8 text and have
  -- different HMAC keys in every vault of the run: whatever sequence of `store`, `retrieve`,
  -- `remove`, `export`, `save` and `change_password` on such names is called on a vault that
  -- `create` returned, in whatever order they succeed or fail, every reply is one that the
  -- specification, a map from names to plaintexts that starts empty, allows.
  pub transcript-Accepts :
      (password : Bytes) (v : Vault) (os os' : Os) (calls : List Spec.Call)
      → create p password os ≡ (ok v, os')
      → Separated p U calls (record { self = v; os = os' })
      → All (Uses p U) calls
      → Spec.Accepts (λ n. none) (Spec.transcript p calls (record { self = v; os = os' }))
  transcript-Accepts password v os os' calls h separated uses =
      let s : Owned Vault = record { self = v; os = os' } in
      let d =
        run-IsFollowed calls s (λ n. none) separated uses (created-Shown password v os os' h) in
      subst (Spec.Accepts (λ n. none)) (append-nil (Spec.transcript p calls s))
        (d.accepts [] (Spec.finished d.after))
