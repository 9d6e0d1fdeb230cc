-- ===== src/Vault/Counters.antt =====
-- The counters that `store` of src/vault/facade.rs binds into the associated data of its entries: under
-- one encryption key none is used twice.
use memseal.Prelude.{
  ℕ, ◌+◌, ◌≤◌, ◌≡◌, refl, sym, ap, ◌∙◌, subst, Option, none, some, List, [], ◌∷◌, ◌++◌, ◌⊎◌, inl,
  inr, All, arith,
}
use memseal.Bytes.{Bytes}
use memseal.Errors.{Result, ok, err, VaultError, IndexError, from_index_error, map_err}
use memseal.Exec.{pure_post}
use memseal.HashMap.{get}
use memseal.HashMap.Laws.{get-insert_same}
use memseal.Platform.{Platform}
use memseal.Types.{IndexEntry, VaultIndex, Vault}
use memseal.Owned.{Owned}
use memseal.Index.Keys.{hmac_key_for_name}
use memseal.Index.Map.{remove_by_key-remove}
use memseal.Vault.Store.{store}
use memseal.Vault.Remove.{remove}
use memseal.Vault.Export.{export}
use memseal.Vault.Disk.{save}
use memseal.Vault.Stored.{store-Stored, new_entry}
use memseal.Vault.Failing.{store_failing}
use memseal.Vault.Retrieve.{hmac_key_for_name-stored_index}
use memseal.Vault.Keeps.{IsRenewed, export-IsRenewed, save-IsRenewed}
use memseal.Vault.Spec

-- Each number is larger than the ones before it, and the first is at least this one.
abbrev pub AscendsFrom : ℕ → List ℕ → Type 0
AscendsFrom n [] = Unit {0}
AscendsFrom n (x ∷ xs) = (n ≤ x) × AscendsFrom (x + 1) xs

-- A call under which the keys stay.
abbrev KeepsKeys : Spec.Call → Type 0
KeepsKeys (Spec.changing_password current new) = ⊥
KeepsKeys call = Unit {0}

abbrev counter_of : Option IndexEntry → List ℕ
counter_of none = []
counter_of (some entry) = entry.data_counter ∷ []

module _ (p : Platform) where
  -- The counter of the entry that the vault has under a name.
  abbrev counter_under : VaultIndex → Result IndexError Bytes → List ℕ
  counter_under index (ok k) = counter_of (get k index.files)
  counter_under index (err e) = []

  -- The counter in the new entry, where a call has stored one.
  abbrev bound_counter : Spec.Call → Spec.Reply → Owned Vault → List ℕ
  bound_counter (Spec.storing name plaintext) Spec.done t =
      counter_under t.self.index (hmac_key_for_name p t.self.index name)
  bound_counter call reply t = []

  -- The counters in the entries that a sequence of calls stores, in order.
  abbrev pub bound_counters : List Spec.Call → Owned Vault → List ℕ
  bound_counters [] s = []
  bound_counters (call ∷ calls) s =
      let (reply, t) = Spec.perform p call s in bound_counter call reply t ++ bound_counters calls t

  -- Either the call stored no entry and the counter has not gone down, or it stored one with the
  -- counter as it was, which has moved on.
  Advances : ℕ → List ℕ → ℕ → Type 0
  Advances before bound now =
      ((bound ≡ []) × (before ≤ now)) ⊎ ((bound ≡ before ∷ []) × (now ≡ before + 1))

  store-Advances :
      (name plaintext : Bytes) (s : Owned Vault) (q : Result VaultError (Unit {0}) × Owned Vault)
      → store p name plaintext s ≡ q
      → Advances s.self.index.data_nonce_counter
          (bound_counter (Spec.storing name plaintext) (Spec.done_or_failed q.0) q.1)
          q.1.self.index.data_nonce_counter
  unfolding Advances
  store-Advances name plaintext s (ok u, t) h =
      let d = store-Stored p name plaintext s t h in
      let entry = new_entry d.counter d.name_nonce d.name_ct d.data_nonce d.data_ct in
      let keyed : hmac_key_for_name p t.self.index name ≡ ok d.hmac_key =
        ap (λ (v : Vault). hmac_key_for_name p v.index name) d.result
        ∙ (hmac_key_for_name-stored_index p s.self.index d.hmac_key entry name ∙ d.keyed) in
      let found : get d.hmac_key t.self.index.files ≡ some entry =
        ap (λ (v : Vault). get d.hmac_key v.index.files) d.result
        ∙ get-insert_same d.hmac_key entry s.self.index.files in
      inr (
        ap (counter_under t.self.index) keyed ∙ (ap counter_of found ∙ ap (λ n. n ∷ []) d.counted),
        ap (λ (v : Vault). v.index.data_nonce_counter) d.result ∙ ap (λ n. n + 1) d.counted,
      )
  store-Advances name plaintext s (err e, t) h = elim (store_failing p name plaintext e s t h) [
    | inl same ↦ inl (refl, omega (arith, ap (λ (v : Vault). v.index.data_nonce_counter) same))
    | inr (_, same) ↦ inl (refl, omega (arith, ap (λ (v : Vault). v.index.data_nonce_counter) same))
  ]

  remove-counter :
      (name : Bytes) (v : Vault)
      → (remove p name v).1.index.data_nonce_counter ≡ v.index.data_nonce_counter
  unfolding remove
  remove-counter name v =
      pure_post (λ q. q.1.index.data_nonce_counter ≡ v.index.data_nonce_counter)
        (map_err from_index_error (hmac_key_for_name p v.index name)) _ v (λ _ _. refl)
        λ k h.
          ap (λ (q : Option IndexEntry × VaultIndex). q.1.data_nonce_counter)
            (remove_by_key-remove k v.index)

  IsRenewed-counter :
      (v w : Vault) → IsRenewed v w → w.index.data_nonce_counter ≡ v.index.data_nonce_counter
  IsRenewed-counter v w same = ap (λ (x : Vault). x.index.data_nonce_counter) same

  perform-Advances :
      (call : Spec.Call) (s : Owned Vault)
      → KeepsKeys call
      → let (reply, t) = Spec.perform p call s in
        Advances s.self.index.data_nonce_counter
          (bound_counter call reply t)
          t.self.index.data_nonce_counter
  perform-Advances (Spec.storing name plaintext) s keeps =
      store-Advances name plaintext s (store p name plaintext s) refl
  perform-Advances (Spec.retrieving name) s keeps = unfold Advances in inl (refl, omega arith)
  perform-Advances (Spec.removing name) s keeps =
      unfold Advances in inl (refl, omega (arith, remove-counter name s.self))
  perform-Advances Spec.exporting s keeps =
      let same = IsRenewed-counter s.self (export p s).1.self (export-IsRenewed p s) in
      unfold Advances in inl (refl, omega (arith, same))
  perform-Advances (Spec.saving path) s keeps =
      let same = IsRenewed-counter s.self (save p path s).1.self (save-IsRenewed p path s) in
      unfold Advances in inl (refl, omega (arith, same))
  perform-Advances (Spec.changing_password current new) s keeps = absurd keeps

  AscendsFrom-weaken : (m n : ℕ) (xs : List ℕ) → m ≤ n → AscendsFrom n xs → AscendsFrom m xs
  AscendsFrom-weaken m n [] h a = tt
  AscendsFrom-weaken m n (x ∷ xs) h (b, a) = (omega arith, a)

  -- Over any sequence of calls without a change of the password, each of which may succeed or fail, the
  -- counters in the entries that it stores ascend, from the counter of the vault on.
  pub bound_counters-AscendsFrom :
      (calls : List Spec.Call) (s : Owned Vault)
      → All KeepsKeys calls
      → AscendsFrom s.self.index.data_nonce_counter (bound_counters calls s)
  unfolding Advances
  bound_counters-AscendsFrom [] s keeps = tt
  bound_counters-AscendsFrom (call ∷ calls) s (keeps, rest) =
      let t = (Spec.perform p call s).1 in
      joined s.self.index.data_nonce_counter _ t.self.index.data_nonce_counter
        (bound_counters calls t) (perform-Advances call s keeps)
        (bound_counters-AscendsFrom calls t rest)
    where
      joined :
          (before : ℕ) (bound : List ℕ) (now : ℕ) (later : List ℕ)
          → Advances before bound now
          → AscendsFrom now later
          → AscendsFrom before (bound ++ later)
      joined before bound now later (inl (none_bound, up)) a =
          subst (λ xs. AscendsFrom before (xs ++ later)) (sym none_bound)
            (AscendsFrom-weaken before now later up a)
      joined before bound now later (inr (one, moved)) a =
          subst (λ xs. AscendsFrom before (xs ++ later)) (sym one)
            (omega arith, subst (λ n. AscendsFrom n later) moved a)
