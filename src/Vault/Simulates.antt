-- ===== src/Vault/Simulates.antt =====
-- Each call does to the vault what the specification does to its map.
use memseal.Prelude.{
  ◌≡◌, refl, sym, ap, ◌∙◌, subst, Option, none, some, List, [], ◌∷◌, inl, inr, if◌then◌else◌,
}
use memseal.Bytes.{Bytes, bytes_eq}
use memseal.Errors.{Result, ok, err, VaultError}
use memseal.HashMap.{HashMap, get, insert, remove}
use memseal.HashMap.Laws.{get-insert, get-remove}
use memseal.HashMap.Merge.{insert_all, get-insert_all, or_else}
use memseal.Platform.{Platform, IsSound}
use memseal.Types.{Vault}
use memseal.Utf8.{from_utf8}
use memseal.Owned.{Owned}
use memseal.Codec.Decode.{is_some}
use memseal.Vault.Store.{store}
use memseal.Vault.Export.{export}
use memseal.Vault.Session.{change_password}
use memseal.Vault.Disk.{FilePath, save}
use memseal.Vault.Failing.{store_failing, change_password_failing}
use memseal.Vault.Keeps.{IsRenewed, export-IsRenewed, save-IsRenewed}
use memseal.Vault.Represents.{Separates}
use memseal.Vault.Fresh.{IsSameView, IsRenewed-IsSameView}
use memseal.Vault.Changed.{change_password-Rekeyed}
use memseal.Vault.Shows.{Shows, Shows-same, retrieve-Shows, store-Shows, remove-Shows}
use memseal.Vault.Refilled.{Rekeyed-Shows}
use memseal.Vault.Spec

module _ (p : Platform) (U : Bytes → Type 0) where
  -- The names that a call mentions are among those of the program.
  abbrev pub Uses : Spec.Call → Type 0
  Uses (Spec.storing name plaintext) = U name
  Uses (Spec.retrieving name) = U name
  Uses (Spec.removing name) = U name
  Uses Spec.exporting = Unit {0}
  Uses (Spec.saving path) = Unit {0}
  Uses (Spec.changing_password current new) = Unit {0}

  -- The names have different HMAC keys in every vault of the run.
  abbrev pub Separated : List Spec.Call → Owned Vault → Type 0
  Separated [] s = Separates p U s.self.index
  Separated (call ∷ calls) s =
      Separates p U s.self.index × Separated calls (Spec.perform p call s).1

  pub Separated-head :
      (calls : List Spec.Call) (s : Owned Vault) → Separated calls s → Separates p U s.self.index
  Separated-head [] s h = h
  Separated-head (call ∷ calls) s h = h.0

  -- The vault shows a list that is this map.
  abbrev pub Shown : Owned Vault → Spec.View → Type 0
  Shown s view =
      (plain : HashMap Bytes) × Shows p U s.self plain × ((n : Bytes) → get n plain ≡ view n)

  -- The reply is allowed, and the vault left behind shows the map that the specification has.
  abbrev pub Refined : Spec.View → Spec.Call → Spec.Reply × Owned Vault → Type 0
  Refined view call (reply, t) =
      (after : Spec.View) × Spec.Allows view call reply after × Shown t after

  Shown-same :
      (s t : Owned Vault) (view : Spec.View)
      → IsSameView s.self t.self
      → Shown s view
      → Shown t view
  Shown-same s t view same (plain, shows, agrees) = (
    plain,
    Shows-same p U s.self t.self plain same.files same.enc_key same.hmac_key shows,
    agrees,
  )

  Shown-renewed :
      (s t : Owned Vault) (view : Spec.View) → IsRenewed s.self t.self → Shown s view → Shown t view
  Shown-renewed s t view same shown =
      Shown-same s t view (IsRenewed-IsSameView s.self t.self same) shown

  pub export-Shown : (s : Owned Vault) (view : Spec.View) → Shown s view → Shown (export p s).1 view
  export-Shown s view shown = Shown-renewed s (export p s).1 view (export-IsRenewed p s) shown

  pub save-Shown :
      (path : FilePath) (s : Owned Vault) (view : Spec.View)
      → Shown s view
      → Shown (save p path s).1 view
  save-Shown path s view shown =
      Shown-renewed s (save p path s).1 view (save-IsRenewed p path s) shown

  module _ (sound : IsSound p) (text : (n : Bytes) → U n → from_utf8 n ≡ some n) where
    pub store-Refined :
        (name plaintext : Bytes) (s : Owned Vault) (view : Spec.View)
        → Separates p U s.self.index
        → U name
        → Shown s view
        → (q : Result VaultError (Unit {0}) × Owned Vault) → store p name plaintext s ≡ q
        → Refined view (Spec.storing name plaintext) (Spec.done_or_failed q.0, q.1)
    store-Refined name plaintext s view separates un (plain, shows, agrees) (ok u, t) h = (
      Spec.update name (some plaintext) view,
      Spec.has_stored view name plaintext,
      (
        insert name plaintext plain,
        store-Shows p U sound name plaintext s t plain separates un (text name un) shows h,
        λ n.
            get-insert name n plaintext plain
            ∙ ap (λ slot. if bytes_eq name n then some plaintext else slot) (agrees n),
      ),
    )
    store-Refined name plaintext s view separates un (plain, shows, agrees) (err e, t) h =
        (view, Spec.has_not_stored view name plaintext e, (plain, spared, agrees))
      where
        spared : Shows p U t.self plain
        spared = elim (store_failing p name plaintext e s t h) [
          | inl same ↦ subst (λ v. Shows p U v plain) (sym same) shows
          | inr (_, same) ↦
              subst (λ v. Shows p U v plain) (sym same)
                (Shows-same p U s.self _ plain refl refl refl shows)
        ]

    pub retrieve-Refined :
        (name : Bytes) (s : Owned Vault) (view : Spec.View)
        → Separates p U s.self.index
        → U name
        → Shown s view
        → Refined view (Spec.retrieving name) (Spec.perform p (Spec.retrieving name) s)
    retrieve-Refined name s view separates un (plain, shows, agrees) = (
      view,
      subst (λ reply. Spec.Allows view (Spec.retrieving name) reply view)
          (ap Spec.found_or_failed
            (sym (retrieve-Shows p U s.self plain name separates un shows ∙ ap ok (agrees name))))
          (Spec.has_retrieved view name),
      (plain, shows, agrees),
    )

    pub remove-Refined :
        (name : Bytes) (s : Owned Vault) (view : Spec.View)
        → Separates p U s.self.index
        → U name
        → Shown s view
        → Refined view (Spec.removing name) (Spec.perform p (Spec.removing name) s)
    remove-Refined name s view separates un (plain, shows, agrees) =
        let (answer, after) = remove-Shows p U name s.self plain separates un shows in
        (
          Spec.update name none view,
          subst (λ reply. Spec.Allows view (Spec.removing name) reply (Spec.update name none view))
              (ap Spec.removed_or_failed
                (sym (answer ∙ ap (λ slot. ok (is_some slot)) (agrees name))))
              (Spec.has_removed view name),
          (
            remove name plain,
            after,
            λ n.
                get-remove name n plain shows.distinct
                ∙ ap (λ slot. if bytes_eq name n then none else slot) (agrees n),
          ),
        )

    pub change_password-Refined :
        (current new : Bytes) (s : Owned Vault) (view : Spec.View)
        → Separates p U (change_password p current new s).1.self.index
        → Shown s view
        → (q : Result VaultError (Unit {0}) × Owned Vault) → change_password p current new s ≡ q
        → Shown q.1 view
    unfolding get
    change_password-Refined current new s view separates (plain, shows, agrees) (ok u, t) h =
        let (_, d) = change_password-Rekeyed p current new s t h in
        let separates' =
          subst (λ (w : Owned Vault). Separates p U w.self.index) (ap (λ q. q.1) h) separates in
        (
          insert_all plain [],
          Rekeyed-Shows p U sound text new s t.self plain separates' shows d,
          λ n. get-insert_all n plain [] shows.distinct ∙ (slot_or_none (get n plain) ∙ agrees n),
        )
      where
        slot_or_none : (slot : Option Bytes) → or_else slot none ≡ slot
        slot_or_none none = refl
        slot_or_none (some t) = refl
    change_password-Refined current new s view separates (plain, shows, agrees) (err e, t) h = (
      plain,
      subst (λ v. Shows p U v plain) (sym (change_password_failing p current new e s t h)) shows,
      agrees,
    )
