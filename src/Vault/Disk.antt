-- ===== src/Vault/Disk.antt =====
-- `Vault::save` and `Vault::load` of src/vault/facade.rs, on a disk that is a map from paths to
-- contents. Each file operation may fail; a write that fails leaves some of the bytes behind.
use memseal.Prelude.{
  ℕ, ◌+◌, not, Option, none, some, [], ◌∷◌, ◌++◌, length, take, ltb, if◌then◌else◌, ◌||◌,
}
use memseal.Constants.{max_vault_file_size}
use memseal.Bytes.{Bytes}
use memseal.Errors.{
  ok, err, VaultError, corrupted_data, io_error, vault_file_too_large, from_random_error, open_file,
  read_file, create_file, write_file, rename_file,
}
use memseal.Exec.{Exec, ◌>>=◌, ◌>>◌, fail_if, map_err}
use memseal.HashMap.{get, insert, remove}
use memseal.Platform.{Platform, Os, called}
use memseal.Types.{Vault}
use memseal.Owned.{Owned, on_os}
use memseal.Codec.Decode.{is_some}
use memseal.Codec.Hex.{key_to_hex}
use memseal.Crypto.Random.{secure_bytes_fill}
use memseal.Vault.Export.{export}
use memseal.Vault.Session.{open_vault}

-- A `Path` by its parent (`None` for a root) and its last component.
pub record FilePath : Type 0 where
  pub parent : Option Bytes
  pub file_name : Bytes

-- The directory that `save` works in: the parent, or "." where there is none or an empty one.
unfoldable pub dir_of : FilePath → Bytes
dir_of path = elim path.parent [
  | none ↦ b'.' ∷ []
  | some parent ↦ elim parent [ [] ↦ b'.' ∷ [] | c ∷ cs ↦ c ∷ cs ]
]

-- `dir.join(name)`: the place of a file.
unfoldable pub join : Bytes → Bytes → Bytes
join dir name = dir ++ b'/' ∷ name

unfoldable pub place : FilePath → Bytes
unfolding dir_of join
place path = join (dir_of path) path.file_name

-- ".memseal_tmp_"
abbrev pub tmp_prefix : Bytes
tmp_prefix =
    b'.' ∷ b'm' ∷ b'e' ∷ b'm' ∷ b's' ∷ b'e' ∷ b'a' ∷ b'l' ∷ b'_' ∷ b't' ∷ b'm' ∷ b'p' ∷ b'_' ∷ []

module _ (p : Platform) where
  -- `opts.open(&tmp_path)` with `create_new`: fails where the file exists.
  unfoldable pub create_new : Bytes → Exec Os VaultError (Unit {0})
  create_new at os =
      if is_some (get at os.disk) || not (p.io os.calls)
      then (err (io_error create_file), called os)
      else (ok tt, record (called os) { disk = insert at [] os.disk })

  -- `write_all` and `sync_all`.
  unfoldable pub write_and_sync : Bytes → Bytes → Exec Os VaultError (Unit {0})
  write_and_sync at bytes os =
      if p.io os.calls then (ok tt, record (called os) { disk = insert at bytes os.disk }) else (
        err (io_error write_file),
        record (called os) { disk = insert at (take (p.partial_write os.calls) bytes) os.disk },
      )

  -- `let _ = std::fs::remove_file(at)`: a failure is ignored.
  unfoldable pub remove_file : Bytes → Os → Os
  remove_file at os =
      if p.io os.calls then record (called os) { disk = remove at os.disk } else called os

  -- `std::fs::rename`: the target is replaced by the source.
  unfoldable pub rename : Bytes → Bytes → Exec Os VaultError (Unit {0})
  rename from to os = elim (get from os.disk) [
    | none ↦ (err (io_error rename_file), called os)
    | some bytes ↦
        if p.io os.calls
        then (ok tt, record (called os) { disk = insert to bytes (remove from os.disk) })
        else (err (io_error rename_file), called os)
  ]

  -- The clean-up behind a failed step.
  abbrev pub or_remove : Bytes → Exec Os VaultError (Unit {0}) → Exec Os VaultError (Unit {0})
  or_remove tmp step os =
      let (r, after) = step os in
      elim r [ ok u ↦ (ok tt, after) | err e ↦ (err e, remove_file tmp after) ]

  -- Opening and syncing the directory: the results are ignored, and no file changes.
  abbrev sync_dir : Exec Os VaultError (Unit {0})
  sync_dir os = (ok tt, called os)

  unfoldable pub write_file_atomically : FilePath → Bytes → Exec Os VaultError (Unit {0})
  write_file_atomically path bytes = do
    rand_suffix ← map_err from_random_error (secure_bytes_fill p 8)
    let tmp_path = join (dir_of path) (tmp_prefix ++ key_to_hex rand_suffix)
    create_new tmp_path
    or_remove tmp_path (write_and_sync tmp_path bytes)
    or_remove tmp_path (rename tmp_path (place path))
    sync_dir

  unfoldable pub save : FilePath → Exec (Owned Vault) VaultError (Unit {0})
  save path = do bytes ← export p; on_os (write_file_atomically path bytes)

  -- `File::open`, and `read_to_end` of the first `limit` bytes, for what the path holds.
  abbrev pub read_found : ℕ → Option Bytes → Exec Os VaultError Bytes
  read_found limit none os = (err (io_error open_file), called os)
  read_found limit (some bytes) os =
      if p.io os.calls
      then (if p.io (os.calls + 1)
          then (ok (take limit bytes), called (called os))
          else (err (io_error read_file), called (called os)))
      else (err (io_error open_file), called os)

  unfoldable pub read_limited : ℕ → FilePath → Exec Os VaultError Bytes
  read_limited limit path os = read_found limit (get (place path) os.disk) os

  unfoldable pub load : FilePath → Bytes → Exec Os VaultError Vault
  load path password = do
    bytes ← read_limited (max_vault_file_size + 1) path
    fail_if (ltb max_vault_file_size (length bytes)) (corrupted_data vault_file_too_large)
    open_vault p password bytes
