-- ===== src/Vault/Refilled.antt =====
-- The view of a vault after `create` and after a change of the password.
use memseal.Prelude.{◌≡◌, sym, ap, ◌∙◌, subst, some, [], ◌∷◌, All}
use memseal.Bytes.{Bytes}
use memseal.Errors.{ok, ok-injective}
use memseal.Exec.{pure_step, own_step}
use memseal.HashMap.{HashMap}
use memseal.HashMap.Merge.{insert_all}
use memseal.Platform.{Platform, IsSound}
use memseal.Types.{IndexEntry, VaultIndex, Vault}
use memseal.Utf8.{from_utf8}
use memseal.Owned.{Owned}
use memseal.Index.Keys.{hmac_key_for_name}
use memseal.Vault.Secrets.{old_plaintexts}
use memseal.Vault.Store.{store}
use memseal.Vault.Session.{rekey_entries}
use memseal.Vault.Rekeyed.{same_keys-rekey_entries}
use memseal.Vault.Represents.{Separates, Represents}
use memseal.Vault.Fresh.{IsFresh, fresh_vault-IsFresh}
use memseal.Vault.Changed.{Rekeyed}
use memseal.Vault.Shows.{Shows, store-Shows}

module _ (p : Platform) (U : Bytes → Type 0) where
  Separates-same :
      (index other : VaultIndex)
      → ((m : Bytes) → hmac_key_for_name p index m ≡ hmac_key_for_name p other m)
      → Separates p U index
      → Separates p U other
  Separates-same index other same d = record {
    keyed = λ n un. let (k, h) = d.keyed n un in (k, sym (same n) ∙ h);
    apart = λ m n k um un hm hn. d.apart m n k um un (same m ∙ hm) (same n ∙ hn);
  }

  pub IsFresh-Shows : (v : Vault) → IsFresh v → Shows p U v []
  IsFresh-Shows v fresh = record {
    enc_key = fresh.enc_key;
    extracted = fresh.extracted;
    represents = subst (λ f. Represents p v.index fresh.enc_key f []) (sym fresh.empty) tt;
    distinct = tt;
    allowed = tt;
  }

  module _ (sound : IsSound p) (text : (n : Bytes) → U n → from_utf8 n ≡ some n) where
    rekey_entries-Shows :
        (old : VaultIndex) (old_key : Bytes) (files : HashMap IndexEntry)
        (plain held : HashMap Bytes) (s s' : Owned Vault)
        → Separates p U s'.self.index
        → Represents p old old_key files plain
        → All (λ q. U q.0) plain
        → Shows p U s.self held
        → rekey_entries p old_key files s ≡ (ok tt, s')
        → Shows p U s'.self (insert_all plain held)
    unfolding rekey_entries
    rekey_entries-Shows old old_key [] [] held s s' separates r all shows h =
        subst (λ v. Shows p U v held) (ap (λ q. q.1.self) h) shows
    rekey_entries-Shows old old_key [] (q ∷ plain) held s s' separates r all shows h = absurd r
    rekey_entries-Shows old old_key (f ∷ files) [] held s s' separates r all shows h = absurd r
    rekey_entries-Shows old old_key ((k, e) ∷ files) ((n, t) ∷ plain) held s s' separates
          (opens, _, r) all shows h =
        let now =
          Separates-same s'.self.index s.self.index
            (λ m. same_keys-rekey_entries p old_key m ((k, e) ∷ files) s s' h) separates in
        pure_step G (old_plaintexts p old_key k e) _ h λ nt o1 q1.
          own_step G (store p nt.0 nt.1 s) _ q1 λ u s1 t1 q2.
            let stored_now : store p n t s ≡ (ok tt, s1) =
              subst (λ (q : Bytes × Bytes). store p q.0 q.1 s ≡ (ok tt, s1))
                (ok-injective (sym o1 ∙ opens)) t1 in
            rekey_entries-Shows old old_key files plain _ s1 s' separates r all.1
              (store-Shows p U sound n t s s1 held now all.0 (text n all.0) shows stored_now) q2
      where
        G : Type 0
        G = Shows p U s'.self (insert_all ((n, t) ∷ plain) held)

    -- Every name and plaintext is put into the new vault.
    pub Rekeyed-Shows :
        (password : Bytes) (s : Owned Vault) (v' : Vault) (plain : HashMap Bytes)
        → Separates p U v'.index
        → Shows p U s.self plain
        → Rekeyed p password s v'
        → Shows p U v' (insert_all plain [])
    Rekeyed-Shows password s v' plain separates shows d =
        let same_key = ok-injective (sym shows.extracted ∙ d.extracted) in
        rekey_entries-Shows s.self.index d.old_key s.self.index.files plain []
          (record { self = d.new_vault; os = d.made_at }) (record { self = v'; os = d.done_at })
          separates
          (subst (λ k. Represents p s.self.index k s.self.index.files plain) same_key
            shows.represents)
          shows.allowed
          (IsFresh-Shows d.new_vault
            (fresh_vault-IsFresh p sound password d.new_vault s.os d.made_at d.made))
          d.run
