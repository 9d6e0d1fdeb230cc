-- ===== src/Vault/Reopened.antt =====
-- The specification across `export` and `open` of src/vault/facade.rs: what a vault held is what the
-- vault that is read from its file holds.
use memseal.Prelude.{
  ◌≤◌, ◌≡◌, sym, ap, ◌∙◌, subst, none, some, List, [], ◌∷◌, ◌++◌, append-nil, length, All,
}
use memseal.Constants.{max_header_json_len}
use memseal.Bytes.{Bytes}
use memseal.Errors.{ok, ok-injective}
use memseal.Platform.{Platform, IsSound, Os}
use memseal.Types.{Vault}
use memseal.Utf8.{from_utf8}
use memseal.Owned.{Owned}
use memseal.Vault.Export.{export}
use memseal.Vault.Session.{create, open_vault}
use memseal.Vault.Reopen.{HasMemory}
use memseal.Vault.Spec
use memseal.Vault.Simulates.{Uses, Separated, Shown, export-Shown}
use memseal.Vault.Shows.{Shows}
use memseal.Vault.Refines.{run-IsFollowed, created-Shown}
use memseal.Vault.Sessions.{Session, opened, continued, current_password, open_vault-Session}

module _ (p : Platform) where
  -- The password that is current behind a sequence of calls.
  abbrev pub final_password : List Spec.Call → Owned Vault → Bytes → Bytes
  final_password [] s password = password
  final_password (call ∷ calls) s password =
      let (reply, t) = Spec.perform p call s in
      final_password calls t (current_password call reply password)

  run-Session :
      (calls : List Spec.Call) (s : Owned Vault) (password : Bytes)
      → Session p password s
      → Session p (final_password calls s password) (Spec.final p calls s)
  run-Session [] s password session = session
  run-Session (call ∷ calls) s password session =
      run-Session calls (Spec.perform p call s).1 _ (continued password s call session)

  module _ (U : Bytes → Type 0) (sound : IsSound p) (memory : HasMemory p)
      (text : (n : Bytes) → U n → from_utf8 n ≡ some n) where
    -- On a platform that keeps the laws of `IsSound` and where memory can be allocated and locked, for
    -- names that are UTF-8 text and have different HMAC keys in every vault of the run: a vault is
    -- created and any sequence of calls made on it, it is exported, and the bytes are opened with the
    -- current password. Then every reply to the calls before the export and to any sequence of calls on
    -- the opened vault is one that a single map from names to plaintexts, which starts empty, allows.
    -- The JSON of the header is at most 4096 bytes.
    pub reopened-Accepts :
        (password : Bytes) (v w : Vault) (os os' os2 os3 : Os) (before behind : List Spec.Call)
        (out : Bytes) (s' : Owned Vault)
        → create p password os ≡ (ok v, os')
        → let s : Owned Vault = record { self = v; os = os' } in
          let t = Spec.final p before s in
          Separated p U before s
          → All (Uses p U) before
          → ((json : Bytes)
              → p.header_to_json t.self.header ≡ some json
              → length json ≤ max_header_json_len)
          → export p t ≡ (ok out, s')
          → open_vault p (final_password before s password) out os2 ≡ (ok w, os3)
          → Separated p U behind (record { self = w; os = os3 })
          → All (Uses p U) behind
          → Spec.Accepts
              (λ n. none)
              (Spec.transcript p before s
                ++ Spec.transcript p behind (record { self = w; os = os3 }))
    reopened-Accepts password v w os os' os2 os3 before behind out s' made separated uses short
          exports opens separated' uses' =
        let s : Owned Vault = record { self = v; os = os' } in
        let t = Spec.final p before s in
        let first =
          run-IsFollowed p U sound text before s (λ n. none) separated uses
            (created-Shown p U sound text password v os os' made) in
        let session = run-Session before s password (opened password v os os' made) in
        let returned =
          open_vault-Session p sound memory (final_password before s password) out t s' os2 session
            short exports in
        let same : (export p t).1.self ≡ w =
          ap (λ q. q.1.self) exports ∙ ok-injective (sym returned ∙ ap (λ q. q.0) opens) in
        let exported = export-Shown p U t first.after first.shown in
        let shown : Shown p U (record { self = w; os = os3 }) first.after =
          (exported.0, subst (λ x. Shows p U x exported.0) same exported.1, exported.2) in
        let second =
          run-IsFollowed p U sound text behind (record { self = w; os = os3 }) first.after
            separated' uses' shown in
        first.accepts _ (
          subst (Spec.Accepts first.after)
            (append-nil (Spec.transcript p behind (record { self = w; os = os3 })))
            (second.accepts [] (Spec.finished second.after)))
