-- ===== src/Vault/Callback.antt =====
-- `with_secret` of src/vault/facade.rs between `store` and `remove`.
use memseal.Prelude.{◌≡◌, refl, ap, ◌∙◌, subst, true, none, some, if◌then◌else◌}
use memseal.Bytes.{Bytes}
use memseal.Bytes.Equality.{bytes_eq_refl}
use memseal.Errors.{Result, VaultError, ok}
use memseal.HashMap.{get}
use memseal.HashMap.Laws.{get-insert_same}
use memseal.Platform.{Platform, IsSound}
use memseal.Types.{Vault}
use memseal.Owned.{Owned}
use memseal.Codec.Decode.{is_some}
use memseal.Index.Keys.{hmac_key_for_name}
use memseal.Index.Valid.{IsValid}
use memseal.Vault.Store.{store}
use memseal.Vault.Remove.{remove}
use memseal.Vault.Secrets.{retrieve, with_secret}
use memseal.Vault.Stored.{store-Stored}
use memseal.Vault.Invariant.{store-IsValid}
use memseal.Vault.Retrieve.{hmac_key_for_name-stored_index, retrieve-store, retrieve-remove}

module _ (p : Platform) where
  called_back :
      {R : Type 0} (name plaintext : Bytes) (v : Vault) (f : Bytes → R)
      → retrieve p v name ≡ ok (some plaintext)
      → with_secret p v name f ≡ ok (some (f plaintext))
  unfolding retrieve with_secret
  called_back name plaintext v f found = rw found refl

  not_called :
      {R : Type 0} (name : Bytes) (v : Vault) (f : Bytes → R)
      → retrieve p v name ≡ ok none
      → with_secret p v name f ≡ ok none
  unfolding retrieve with_secret
  not_called name v f found = rw found refl

  -- On a platform that keeps the laws of `IsSound`, when `store` succeeds on a vault with a valid index:
  -- `with_secret` of the name hands its callback the stored plaintext and returns what the callback
  -- returns; when `remove` of the name follows, it succeeds, and `with_secret` then finds nothing.
  pub with_secret-store :
      {R : Type 0} (sound : IsSound p) (name plaintext : Bytes) (f : Bytes → R) (s s' : Owned Vault)
      → IsValid s.self.index
      → store p name plaintext s ≡ (ok tt, s')
      → let (removed, after) = remove p name s'.self in
        (with_secret p s'.self name f ≡ ok (some (f plaintext)))
        × (removed ≡ ok true)
        × (with_secret p after name f ≡ ok none)
  with_secret-store sound name plaintext f s s' valid h =
      let d = store-Stored p name plaintext s s' h in
      let valid' : IsValid s'.self.index =
        subst (λ (q : Result VaultError (Unit {0}) × Owned Vault). IsValid q.1.self.index) h
          (store-IsValid p sound name plaintext s valid) in
      let keyed =
        ap (λ (w : Vault). hmac_key_for_name p w.index name) d.result
        ∙ (hmac_key_for_name-stored_index p s.self.index _ _ name ∙ d.keyed) in
      let found =
        ap (λ (w : Vault). get d.hmac_key w.index.files) d.result
        ∙ get-insert_same d.hmac_key _ s.self.index.files in
      let (gone, nothing) =
        retrieve-remove p name name s'.self d.hmac_key d.hmac_key valid'.encodable.distinct keyed
          keyed in
      (
        called_back name plaintext s'.self f (retrieve-store p sound name plaintext s s' h),
        gone ∙ ap (λ o. ok (is_some o)) found,
        not_called name (remove p name s'.self).1 f (
            nothing
            ∙ ap (λ b. if b then ok none else retrieve p s'.self name) (bytes_eq_refl d.hmac_key)),
      )
