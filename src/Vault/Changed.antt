-- ===== src/Vault/Changed.antt =====
-- What a successful `rekey`, `change_password` or `create` has done.
use memseal.Prelude.{◌≡◌, sym, ap, ◌∙◌, subst}
use memseal.Bytes.{Bytes}
use memseal.Errors.{Result, ok, err, VaultError}
use memseal.Exec.{pure_step, own_step}
use memseal.HashMap.{HashMap}
use memseal.Platform.{Platform, Os}
use memseal.Types.{IndexEntry, Vault}
use memseal.Owned.{Owned, on_os}
use memseal.Vault.Keys.{extract_enc_key, validate_password, verify_password}
use memseal.Vault.Session.{fresh_vault, create, rekey_entries, map_ok, rekey, change_password}

-- The new vault that `rekey` made and the run of its loop, which left the vault `v'`.
pub record Rekeyed (p : Platform) (password : Bytes) (s : Owned Vault) (v' : Vault) : Type 0 where
  pub new_vault : Vault
  pub made_at : Os
  pub done_at : Os
  pub old_key : Bytes
  pub made : fresh_vault p password s.os ≡ (ok new_vault, made_at)
  pub extracted : extract_enc_key s.self.index.enc_key ≡ ok old_key
  pub run :
      rekey_entries p old_key s.self.index.files (record { self = new_vault; os = made_at })
      ≡ (ok tt, record { self = v'; os = done_at })

module _ (p : Platform) where
  -- The loop on the new vault alone.
  abbrev pub entries : Vault → Bytes → HashMap IndexEntry → Os → Result VaultError Vault × Os
  entries new_vault key files os =
      let (r, t) = rekey_entries p key files (record { self = new_vault; os = os }) in
      (map_ok r t.self, t.os)

  pub map_ok_run :
      (q : Result VaultError (Unit {0}) × Owned Vault) (v : Vault) (os' : Os)
      → ◌≡◌ {A = Result VaultError Vault × Os} (map_ok q.0 q.1.self, q.1.os) (ok v, os')
      → q ≡ (ok tt, record { self = v; os = os' })
  map_ok_run (ok u, t) v os' f = λ i. (ok tt, record { self = value t.self (f i).0; os = (f i).1 })
    where
      value : Vault → Result VaultError Vault → Vault
      value d (ok w) = w
      value d (err e) = d
  map_ok_run (err x, t) v os' f = cc

  pub rekey-Rekeyed :
      (password : Bytes) (s s' : Owned Vault)
      → rekey p password s ≡ (ok tt, s')
      → Rekeyed p password s s'.self
  unfolding rekey
  rekey-Rekeyed password s s' h =
      own_step G (on_os (fresh_vault p password) s) _ h λ new_vault s1 t1 q1.
        pure_step G (extract_enc_key s1.self.index.enc_key) _ q1 λ key ek q2.
          own_step G (on_os (entries new_vault key s1.self.index.files) s1) _ q2 λ rekeyed s2 t2 q3.
            let kept : s1.self ≡ s.self = ap (λ q. q.1.self) (sym t1) in
            let run : rekey_entries p key s1.self.index.files
                  (record { self = new_vault; os = s1.os })
                ≡ (ok tt, record { self = rekeyed; os = s2.os }) =
              map_ok_run
                (rekey_entries p key s1.self.index.files (record { self = new_vault; os = s1.os }))
                rekeyed s2.os (λ i. ((t2 i).0, (t2 i).1.os)) in
            subst (λ v. Rekeyed p password s v) (ap (λ q. q.1.self) q3)
              (record {
                new_vault = new_vault;
                made_at = s1.os;
                done_at = s2.os;
                old_key = key;
                made = λ i. ((t1 i).0, (t1 i).1.os);
                extracted = ap (λ (v : Vault). extract_enc_key v.index.enc_key) (sym kept) ∙ ek;
                run =
                    ap
                      (λ (v : Vault).
                        rekey_entries p key v.index.files (record { self = new_vault; os = s1.os }))
                      (sym kept)
                    ∙ run;
              })
    where
      G : Type 0
      G = Rekeyed p password s s'.self

  pub change_password-Rekeyed :
      (current new : Bytes) (s s' : Owned Vault)
      → change_password p current new s ≡ (ok tt, s')
      → (verify_password p s.self current ≡ ok tt) × Rekeyed p new s s'.self
  unfolding change_password
  change_password-Rekeyed current new s s' h = pure_step G (validate_password new) _ h λ u1 o1 q1.
      pure_step G (verify_password p s.self current) _ q1
        λ u2 o2 q2. (o2, rekey-Rekeyed new s s' q2)
    where
      G : Type 0
      G = (verify_password p s.self current ≡ ok tt) × Rekeyed p new s s'.self

  pub create-fresh_vault :
      (password : Bytes) (v : Vault) (os os' : Os)
      → create p password os ≡ (ok v, os')
      → fresh_vault p password os ≡ (ok v, os')
  unfolding create
  create-fresh_vault password v os os' h =
      pure_step (fresh_vault p password os ≡ (ok v, os')) (validate_password password) _ h
        λ u o1 q1. q1
