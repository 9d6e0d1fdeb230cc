-- ===== src/Vault/Changes.antt =====
-- `change_password` of src/vault/facade.rs succeeds on a vault within the limits of `store`, when the
-- platform works.
use memseal.Prelude.{
  ◌+◌, ◌≤◌, ◌<◌, ◌≡◌, refl, sym, ap, subst, false, [], ◌∷◌, length, ltb, All, arith,
}
use memseal.Constants.{min_password_len, max_index_entries, u64_max}
use memseal.Bytes.{Bytes}
use memseal.Errors.{ok}
use memseal.HashMap.{HashMap}
use memseal.HashMap.Laws.{length-insert}
use memseal.Platform.{Platform, IsSound, Os}
use memseal.Types.{IndexEntry, LockedSecret, Vault}
use memseal.Owned.{Owned}
use memseal.Index.Subkeys.{IsSubkey}
use memseal.Vault.Keys.{extract_enc_key, validate_password, verify_password}
use memseal.Vault.Secrets.{old_plaintexts}
use memseal.Vault.Store.{store}
use memseal.Vault.Session.{fresh_vault, rekey_entries, rekey, change_password}
use memseal.Vault.Stored.{store-Stored}
use memseal.Vault.Reopen.{HasMemory}
use memseal.Vault.Rekeyed.{Reads}
use memseal.Vault.Total.{Works, store-total}
use memseal.Vault.Fresh.{fresh_vault-IsFresh}
use memseal.Vault.Changed.{change_password-Rekeyed}
use memseal.Vault.Opens.{Opens, Rekeyed-Opens}
use memseal.Vault.Rekeys.{Derives, Fits, fresh_vault-total}

module _ (p : Platform) where
  step_runs :
      {n t : Bytes} {s1 s' : Owned Vault} (old_key k : Bytes) (e : IndexEntry)
      (files : HashMap IndexEntry) (s : Owned Vault)
      → old_plaintexts p old_key k e ≡ ok (n, t)
      → store p n t s ≡ (ok tt, s1)
      → rekey_entries p old_key files s1 ≡ (ok tt, s')
      → rekey_entries p old_key ((k, e) ∷ files) s ≡ (ok tt, s')
  unfolding rekey_entries
  step_runs old_key k e files s opens run rest = rw (opens, run, rest) refl

  rekey_runs :
      {key : Bytes} {v : Vault} {os1 : Os} {t : Owned Vault} (password : Bytes) (s : Owned Vault)
      → fresh_vault p password s.os ≡ (ok v, os1)
      → extract_enc_key s.self.index.enc_key ≡ ok key
      → rekey_entries p key s.self.index.files (record { self = v; os = os1 }) ≡ (ok tt, t)
      → rekey p password s ≡ (ok tt, t)
  unfolding rekey
  rekey_runs password s fresh extracted run = rw (fresh, extracted, run) refl

  change_runs :
      {t : Owned Vault} (current new : Bytes) (s : Owned Vault)
      → min_password_len ≤ length new
      → verify_password p s.self current ≡ ok tt
      → rekey p new s ≡ (ok tt, t)
      → change_password p current new s ≡ (ok tt, t)
  unfolding change_password validate_password
  change_runs current new s long verified run =
      let enough : ltb (length new) min_password_len ≡ false = ground arith in
      rw (enough, verified, run) refl

  -- The current password is accepted.
  verify_password-Opens :
      IsSound p
      → (password : Bytes) (v : Vault) → Opens p password v
      → verify_password p v password ≡ ok tt
  unfolding verify_password
  verify_password-Opens sound password v d =
      rw (d.unlocks.derived, d.unlocks.subkeys, sound.cmp_refl v.index.enc_key.region) refl

  length-Reads :
      (old_key : Bytes) (files : HashMap IndexEntry) (plain : HashMap Bytes)
      → Reads p old_key files plain
      → length plain ≡ length files
  length-Reads old_key [] [] h = refl
  length-Reads old_key [] (q ∷ plain) h = absurd h
  length-Reads old_key (f ∷ files) [] h = absurd h
  length-Reads old_key ((k, e) ∷ files) ((n, t) ∷ plain) h =
      omega (arith, length-Reads old_key files plain h.1)

  module _ (sound : IsSound p) (works : Works p) where
    rekey_entries-total :
        (old_key : Bytes) (files : HashMap IndexEntry) (plain : HashMap Bytes) (s : Owned Vault)
        → Reads p old_key files plain
        → All Fits plain
        → IsSubkey s.self.index.enc_key.region
        → s.self.index.data_nonce_counter + length plain < u64_max
        → length s.self.index.files + length plain ≤ max_index_entries
        → (s' : Owned Vault) × (rekey_entries p old_key files s ≡ (ok tt, s'))
    rekey_entries-total old_key [] [] s reads fits key counter room =
        (s, unfold rekey_entries in refl)
    rekey_entries-total old_key [] (q ∷ plain) s reads fits key counter room = absurd reads
    rekey_entries-total old_key (f ∷ files) [] s reads fits key counter room = absurd reads
    rekey_entries-total old_key ((k, e) ∷ files) ((n, t) ∷ plain) s (opens, reads)
          ((bn, bt, ln, lt), fits) (k32, kb) counter room =
        let s1 = (store p n t s).1 in
        let stores : store p n t s ≡ (ok tt, s1) = λ i. (
          (store-total p sound works n t s bn bt kb ln lt k32 (omega arith)
                (λ j keyed absent. omega arith)).0
              i,
          s1,
        ) in
        let d = store-Stored p n t s s1 stores in
        let same_key : s1.self.index.enc_key ≡ s.self.index.enc_key =
          ap (λ (v : Vault). v.index.enc_key) d.result in
        let next : s1.self.index.data_nonce_counter ≡ d.counter + 1 =
          ap (λ (v : Vault). v.index.data_nonce_counter) d.result in
        let entries = ap (λ (v : Vault). length v.index.files) d.result in
        let (s', run) =
          rekey_entries-total old_key files plain s1 reads fits
            (subst (λ (x : LockedSecret). IsSubkey x.region) (sym same_key) (k32, kb))
            (omega (arith, next, d.counted, counter))
            (omega (arith, entries, length-insert d.hmac_key _ s.self.index.files, room)) in
        (s', step_runs old_key k e files s opens stores run)

    -- On a platform that keeps the laws of `IsSound` and works, where memory can be allocated and
    -- locked and keys can be derived: `change_password` succeeds, and the new password opens the vault
    -- afterwards, when the current one opens it, the new one has at least 8 bytes, and the at most
    -- 1024 entries hold names and plaintexts, under the encryption key, within the limits of `store`.
    pub change_password-total :
        (memory : HasMemory p) (derives : Derives p) (current new old_key : Bytes)
        (plain : HashMap Bytes) (s : Owned Vault)
        → Opens p current s.self
        → min_password_len ≤ length new
        → extract_enc_key s.self.index.enc_key ≡ ok old_key
        → Reads p old_key s.self.index.files plain
        → All Fits plain
        → length s.self.index.files ≤ max_index_entries
        → (s' : Owned Vault) × ((change_password p current new s ≡ (ok tt, s'))
            × Opens p new s'.self)
    change_password-total memory derives current new old_key plain s opens long extracted reads fits
          few =
        let (v, (os1, made)) = fresh_vault-total p sound works memory derives new s.os in
        let fresh = fresh_vault-IsFresh p sound new v s.os os1 made in
        let count = length-Reads old_key s.self.index.files plain reads in
        let (t, run) =
          rekey_entries-total old_key s.self.index.files plain (record { self = v; os = os1 }) reads
            fits fresh.enc_key_ok (omega (arith, fresh.uncounted, count, few))
            (omega (arith, ap length fresh.empty, count, few)) in
        let changed =
          change_runs current new s long (verify_password-Opens sound current s.self opens)
            (rekey_runs new s made extracted run) in
        (
          t,
          (
            changed,
            Rekeyed-Opens p new s t.self (change_password-Rekeyed p current new s t changed).1,
          ),
        )
