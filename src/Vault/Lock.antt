-- ===== src/Vault/Lock.antt =====
-- The calls of src/vault/facade.rs that leave the header and the subkeys of a vault as they are.
use memseal.Prelude.{◌≡◌, refl, sym, ap, ◌∙◌, subst, [], ◌∷◌, inl, inr, Option}
use memseal.Bytes.{Bytes}
use memseal.Errors.{Result, ok, err, VaultError, from_index_error, map_err}
use memseal.Exec.{pure_step, own_step, pure_post}
use memseal.HashMap.{HashMap}
use memseal.Platform.{Platform}
use memseal.Types.{IndexEntry, VaultIndex, Vault}
use memseal.Owned.{Owned}
use memseal.Index.Keys.{hmac_key_for_name}
use memseal.Index.Map.{remove_by_key-remove}
use memseal.Vault.Secrets.{old_plaintexts}
use memseal.Vault.Store.{store}
use memseal.Vault.Remove.{remove}
use memseal.Vault.Keeps.{IsRenewed}
use memseal.Vault.Session.{rekey_entries}
use memseal.Vault.Stored.{store-Stored}
use memseal.Vault.Failing.{store_failing}

-- The header and the subkeys are the same.
pub record IsSameLock (v w : Vault) : Type 0 where
  pub header : w.header ≡ v.header
  pub enc_key : w.index.enc_key ≡ v.index.enc_key
  pub hmac_key : w.index.hmac_key ≡ v.index.hmac_key

IsSameLock-refl : (v : Vault) → IsSameLock v v
IsSameLock-refl v = record { header = refl; enc_key = refl; hmac_key = refl }

IsSameLock-trans : (u v w : Vault) → IsSameLock u v → IsSameLock v w → IsSameLock u w
IsSameLock-trans u v w a b = record {
  header = b.header ∙ a.header;
  enc_key = b.enc_key ∙ a.enc_key;
  hmac_key = b.hmac_key ∙ a.hmac_key;
}

pub IsRenewed-IsSameLock : (v w : Vault) → IsRenewed v w → IsSameLock v w
IsRenewed-IsSameLock v w same = record {
  header = ap (λ (x : Vault). x.header) same;
  enc_key = ap (λ (x : Vault). x.index.enc_key) same;
  hmac_key = ap (λ (x : Vault). x.index.hmac_key) same;
}

module _ (p : Platform) where
  pub store-IsSameLock :
      (name plaintext : Bytes) (s : Owned Vault)
      → IsSameLock s.self (store p name plaintext s).1.self
  store-IsSameLock name plaintext s = by_outcome (store p name plaintext s) refl
    where
      by_outcome :
          (q : Result VaultError (Unit {0}) × Owned Vault)
          → store p name plaintext s ≡ q
          → IsSameLock s.self q.1.self
      by_outcome (ok u, t) h =
          subst (IsSameLock s.self) (sym (store-Stored p name plaintext s t h).result)
            (record { header = refl; enc_key = refl; hmac_key = refl })
      by_outcome (err e, t) h = elim (store_failing p name plaintext e s t h) [
        | inl same ↦ subst (IsSameLock s.self) (sym same) (IsSameLock-refl s.self)
        | inr (_, same) ↦
            subst (IsSameLock s.self) (sym same)
              (record { header = refl; enc_key = refl; hmac_key = refl })
      ]

  pub remove-IsSameLock : (name : Bytes) (v : Vault) → IsSameLock v (remove p name v).1
  unfolding remove
  remove-IsSameLock name v =
      pure_post (λ q. IsSameLock v q.1)
        (map_err from_index_error (hmac_key_for_name p v.index name)) _ v (λ _ _. IsSameLock-refl v)
        λ k h.
          subst (λ (q : Option IndexEntry × VaultIndex). IsSameLock v (record v { index = q.1 }))
            (sym (remove_by_key-remove k v.index))
            (record { header = refl; enc_key = refl; hmac_key = refl })

  pub rekey_entries-IsSameLock :
      (old_key : Bytes) (files : HashMap IndexEntry) (s s' : Owned Vault)
      → rekey_entries p old_key files s ≡ (ok tt, s')
      → IsSameLock s.self s'.self
  unfolding rekey_entries
  rekey_entries-IsSameLock old_key [] s s' h =
      subst (IsSameLock s.self) (ap (λ q. q.1.self) h) (IsSameLock-refl s.self)
  rekey_entries-IsSameLock old_key ((k, e) ∷ files) s s' h =
      pure_step G (old_plaintexts p old_key k e) _ h λ nt o1 q1.
        own_step G (store p nt.0 nt.1 s) _ q1 λ u s1 t1 q2.
          IsSameLock-trans s.self s1.self s'.self
            (subst (λ q. IsSameLock s.self q.1.self) t1 (store-IsSameLock nt.0 nt.1 s))
            (rekey_entries-IsSameLock old_key files s1 s' q2)
    where
      G : Type 0
      G = IsSameLock s.self s'.self
