-- ===== src/Vault/Sessions.antt =====
-- A session: a vault is created and used, and what it exports can be opened with the password that is
-- current by then.
use memseal.Prelude.{ℕ, ◌≢◌, true, ◌≤◌, ◌≡◌, refl, sym, subst, some, length}
use memseal.Constants.{max_header_json_len}
use memseal.Bytes.{Bytes}
use memseal.Errors.{Result, ok, err, VaultError}
use memseal.Platform.{Platform, IsSound, Os}
use memseal.Types.{Vault}
use memseal.Owned.{Owned}
use memseal.Vault.Export.{export}
use memseal.Vault.Session.{create, change_password, open_vault}
use memseal.Vault.Disk.{FilePath, place, save, load}
use memseal.Vault.Atomic.{tmp_path}
use memseal.Vault.Reload.{load-save}
use memseal.Vault.Failing.{change_password_failing}
use memseal.Vault.Reopen.{HasMemory, open_vault-export}
use memseal.Vault.Reached.{
  stored, removed, exported, saved, changed, Reached, created, then, Reached-IsValid,
}
use memseal.Vault.Changed.{change_password-Rekeyed, create-fresh_vault}
use memseal.Vault.Keeps.{export-IsRenewed, save-IsRenewed}
use memseal.Vault.Lock.{store-IsSameLock, remove-IsSameLock, IsRenewed-IsSameLock}
use memseal.Vault.Opens.{Opens, Opens-same, fresh_vault-Opens, Rekeyed-Opens}
use memseal.Vault.Spec

-- The password that is current after a call.
abbrev pub current_password : Spec.Call → Spec.Reply → Bytes → Bytes
current_password (Spec.changing_password current new) Spec.done password = new
current_password call reply password = password

-- The states of a session, with the current password.
pub data Session (p : Platform) : Bytes → Owned Vault → Type 0 where
  opened :
      (password : Bytes) (v : Vault) (os os' : Os)
      → create p password os ≡ (ok v, os')
      → Session p password (record { self = v; os = os' })
  continued :
      (password : Bytes) (s : Owned Vault) (call : Spec.Call)
      → Session p password s
      → Session p
          (current_password call (Spec.perform p call s).0 password)
          (Spec.perform p call s).1

module _ (p : Platform) where
  change_password-Opens :
      (current new password : Bytes) (s : Owned Vault)
      → Opens p password s.self
      → (q : Result VaultError (Unit {0}) × Owned Vault) → change_password p current new s ≡ q
      → Opens p
          (current_password (Spec.changing_password current new) (Spec.done_or_failed q.0) password)
          q.1.self
  change_password-Opens current new password s d (ok u, t) h =
      Rekeyed-Opens p new s t.self (change_password-Rekeyed p current new s t h).1
  change_password-Opens current new password s d (err e, t) h =
      subst (Opens p password) (sym (change_password_failing p current new e s t h)) d

  perform-Opens :
      (password : Bytes) (s : Owned Vault) (call : Spec.Call)
      → Opens p password s.self
      → Opens p
          (current_password call (Spec.perform p call s).0 password)
          (Spec.perform p call s).1.self
  perform-Opens password s (Spec.storing name plaintext) d =
      Opens-same p password s.self _ (store-IsSameLock p name plaintext s) d
  perform-Opens password s (Spec.retrieving name) d = d
  perform-Opens password s (Spec.removing name) d =
      Opens-same p password s.self _ (remove-IsSameLock p name s.self) d
  perform-Opens password s Spec.exporting d =
      Opens-same p password s.self _ (IsRenewed-IsSameLock s.self _ (export-IsRenewed p s)) d
  perform-Opens password s (Spec.saving path) d =
      Opens-same p password s.self _ (IsRenewed-IsSameLock s.self _ (save-IsRenewed p path s)) d
  perform-Opens password s (Spec.changing_password current new) d =
      change_password-Opens current new password s d (change_password p current new s) refl

  pub Session-Opens :
      (password : Bytes) (s : Owned Vault) → Session p password s → Opens p password s.self
  Session-Opens _ _ (opened password v os os' h) =
      fresh_vault-Opens p password v os os' (create-fresh_vault p password v os os' h)
  Session-Opens _ _ (continued password s call before) =
      perform-Opens password s call (Session-Opens password s before)

  perform-Reached :
      (s : Owned Vault) (call : Spec.Call) → Reached p s → Reached p (Spec.perform p call s).1
  perform-Reached s (Spec.storing name plaintext) r = then s _ r (stored name plaintext s)
  perform-Reached s (Spec.retrieving name) r = r
  perform-Reached s (Spec.removing name) r = then s _ r (removed name s)
  perform-Reached s Spec.exporting r = then s _ r (exported s)
  perform-Reached s (Spec.saving path) r = then s _ r (saved path s)
  perform-Reached s (Spec.changing_password current new) r = then s _ r (changed current new s)

  Session-Reached : (password : Bytes) (s : Owned Vault) → Session p password s → Reached p s
  Session-Reached _ _ (opened password v os os' h) = created password v os os' h
  Session-Reached _ _ (continued password s call before) =
      perform-Reached s call (Session-Reached password s before)

  -- On a platform that keeps the laws of `IsSound` and where memory can be allocated and locked: a
  -- vault starts with `create` and goes through any sequence of calls, each of which may succeed or
  -- fail. When `export` then succeeds, `open` of its bytes with the current password, which is the one
  -- of `create` or of the last `change_password` that succeeded, returns the exported vault. The JSON
  -- of the header is at most 4096 bytes.
  pub open_vault-Session :
      (sound : IsSound p) (memory : HasMemory p) (password out : Bytes) (s s' : Owned Vault)
      (os : Os)
      → Session p password s
      → ((json : Bytes)
          → p.header_to_json s.self.header ≡ some json
          → length json ≤ max_header_json_len)
      → export p s ≡ (ok out, s')
      → (open_vault p password out os).0 ≡ ok s'.self
  open_vault-Session sound memory password out s s' os session short h =
      let d = Session-Opens password s session in
      let valid = (Reached-IsValid p sound s (Session-Reached password s session)).0 in
      open_vault-export p sound memory password out s s' os valid d.version d.accepted short
        d.unlocks h

  -- On a platform that keeps the laws of `IsSound`, where memory can be allocated and locked and file
  -- operations succeed: a vault starts with `create` and goes through any sequence of calls, each of
  -- which may succeed or fail. When `save` then succeeds, `load` of the same path with the current
  -- password returns the vault as `save` left it. The target is named like no temporary file, and the
  -- JSON of the header is at most 4096 bytes.
  pub load-Session :
      (sound : IsSound p) (memory : HasMemory p) (path : FilePath) (password : Bytes)
      (s s' : Owned Vault)
      → ((i : ℕ) → p.io i ≡ true)
      → ((suffix : Bytes) → tmp_path path suffix ≢ place path)
      → Session p password s
      → ((json : Bytes)
          → p.header_to_json s.self.header ≡ some json
          → length json ≤ max_header_json_len)
      → save p path s ≡ (ok tt, s')
      → (load p path password s'.os).0 ≡ ok s'.self
  load-Session sound memory path password s s' io apart session short h =
      let d = Session-Opens password s session in
      let valid = (Reached-IsValid p sound s (Session-Reached password s session)).0 in
      load-save p sound memory path password s s' io apart valid d.version d.accepted short
        d.unlocks h
