-- ===== src/Vault/Spec.antt =====
-- What a vault promises to its caller: it is a partial map from names to plaintexts. The calls and
-- their replies are those of src/vault/facade.rs; the specification knows no keys, nonces, counters
-- or entries.
use memseal.Prelude.{Bool, Option, none, some, if◌then◌else◌}
use memseal.Bytes.{Bytes, bytes_eq}
use memseal.Errors.{Result, ok, err, VaultError}
use memseal.Platform.{Platform}
use memseal.Types.{Vault}
use memseal.Owned.{Owned}
use memseal.Codec.Decode.{is_some}
use memseal.Vault.Store.{store}
use memseal.Vault.Secrets.{retrieve}
use memseal.Vault.Remove.{remove}
use memseal.Vault.Export.{export}
use memseal.Vault.Session.{change_password}
use memseal.Vault.Disk.{FilePath, save}
use memseal.Prelude.{List, [], ◌∷◌}

pub data Call : Type 0 where
  storing : Bytes → Bytes → Call
  retrieving removing : Bytes → Call
  exporting : Call
  saving : FilePath → Call
  changing_password : Bytes → Bytes → Call

pub data Reply : Type 0 where
  done : Reply
  found : Option Bytes → Reply
  removed : Bool → Reply
  failed : VaultError → Reply

-- The map from names to plaintexts.
abbrev pub View : Type 0
View = Bytes → Option Bytes

abbrev pub update : Bytes → Option Bytes → View → View
update name slot view n = if bytes_eq name n then slot else view n

-- What a call may answer and how it changes the map. A call that fails, an export, a save and a
-- change of the password leave the map as it was; `retrieve` and `remove` do not fail.
pub data Allows : View → Call → Reply → View → Type 0 where
  has_stored :
      (view : View) (name plaintext : Bytes)
      → Allows view (storing name plaintext) done (update name (some plaintext) view)
  has_not_stored :
      (view : View) (name plaintext : Bytes) (e : VaultError)
      → Allows view (storing name plaintext) (failed e) view
  has_retrieved :
      (view : View) (name : Bytes) → Allows view (retrieving name) (found (view name)) view
  has_removed :
      (view : View) (name : Bytes)
      → Allows view (removing name) (removed (is_some (view name))) (update name none view)
  has_exported : (view : View) (reply : Reply) → Allows view exporting reply view
  has_saved : (view : View) (path : FilePath) (reply : Reply) → Allows view (saving path) reply view
  has_changed_password :
      (view : View) (current new : Bytes) (reply : Reply)
      → Allows view (changing_password current new) reply view

-- A sequence of calls with their replies that the specification allows.
pub data Accepts : View → List (Call × Reply) → Type 0 where
  finished : (view : View) → Accepts view []
  next :
      (view after : View) (call : Call) (reply : Reply) (rest : List (Call × Reply))
      → Allows view call reply after
      → Accepts after rest
      → Accepts view ((call, reply) ∷ rest)

abbrev pub done_or_failed : {A : Type 0} → Result VaultError A → Reply
done_or_failed (ok a) = done
done_or_failed (err e) = failed e

abbrev pub found_or_failed : Result VaultError (Option Bytes) → Reply
found_or_failed (ok slot) = found slot
found_or_failed (err e) = failed e

abbrev pub removed_or_failed : Result VaultError Bool → Reply
removed_or_failed (ok b) = removed b
removed_or_failed (err e) = failed e

module _ (p : Platform) where
  -- The method that a call names.
  abbrev pub perform : Call → Owned Vault → Reply × Owned Vault
  perform (storing name plaintext) s =
      let (r, t) = store p name plaintext s in (done_or_failed r, t)
  perform (retrieving name) s = (found_or_failed (retrieve p s.self name), s)
  perform (removing name) s =
      let (r, v) = remove p name s.self in (removed_or_failed r, record s { self = v })
  perform exporting s = let (r, t) = export p s in (done_or_failed r, t)
  perform (saving path) s = let (r, t) = save p path s in (done_or_failed r, t)
  perform (changing_password current new) s =
      let (r, t) = change_password p current new s in (done_or_failed r, t)

  -- The replies to a sequence of calls.
  abbrev pub transcript : List Call → Owned Vault → List (Call × Reply)
  transcript [] s = []
  transcript (call ∷ calls) s =
      let (reply, t) = perform call s in (call, reply) ∷ transcript calls t

  -- The state behind a sequence of calls.
  abbrev pub final : List Call → Owned Vault → Owned Vault
  final [] s = s
  final (call ∷ calls) s = final calls (perform call s).1
