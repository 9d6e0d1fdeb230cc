-- ===== src/Vault/Retrieve.antt =====
-- What `retrieve` returns after `store` and `remove`.
use memseal.Prelude.{
  ◌≡◌, ◌≢◌, refl, sym, ap, ◌∙◌, Bool, true, false, Option, none, some, ◌++◌, length, take, drop,
  take-append, drop-append, length-append, ltb, arith, if◌then◌else◌,
}
use memseal.Exec
use memseal.Bytes.{Bytes, bytes_eq}
use memseal.Bytes.Equality.{bytes_eq_ne}
use memseal.Errors.{ok, ◌>>=◌, from_index_error, map_err}
use memseal.HashMap.{get, HasDistinctKeys}
use memseal.HashMap.Laws.{get-insert_same, get-insert_other}
use memseal.Platform.{Platform, IsSound}
use memseal.Types.{IndexEntry, VaultIndex, Vault}
use memseal.Owned.{Owned}
use memseal.Crypto.Aead.{open_with_aad-seal_with_aad}
use memseal.Codec.Decode.{is_some}
use memseal.Index.Map.{remove_by_key_lem}
use memseal.Index.{lookup_by_key, remove_by_key}
use memseal.Index.Keys.{hmac_key_for_name}
use memseal.Vault.Keys.{split_nonce}
use memseal.Vault.Store.{store}
use memseal.Vault.Secrets.{decrypt_entry, decrypt_looked_up, decrypt_secret, retrieve}
use memseal.Vault.Remove.{remove}
use memseal.Vault.Stored.{Stored, store-Stored, new_entry, stored_index}

pub split_nonce-append :
    (nonce rest : Bytes) → length nonce ≡ 24 → split_nonce (nonce ++ rest) ≡ ok (nonce, rest)
unfolding split_nonce
split_nonce-append nonce rest h =
    let long : ltb (length (nonce ++ rest)) 24 ≡ false = ground (arith, length-append nonce rest) in
    rw long (λ i. ok (front i, back i))
  where
    front : take 24 (nonce ++ rest) ≡ nonce
    front = ap (λ n. take n (nonce ++ rest)) (sym h) ∙ take-append nonce rest

    back : drop 24 (nonce ++ rest) ≡ rest
    back = ap (λ n. drop n (nonce ++ rest)) (sym h) ∙ drop-append nonce rest

module _ (p : Platform) where
  -- The key of a name does not depend on the entries or the counters.
  pub hmac_key_for_name-stored_index :
      (index : VaultIndex) (k : Bytes) (e : IndexEntry) (name : Bytes)
      → hmac_key_for_name p (stored_index index k e) name ≡ hmac_key_for_name p index name
  unfolding hmac_key_for_name
  hmac_key_for_name-stored_index index k e name = refl

  decrypt_new_entry :
      IsSound p
      → {name plaintext : Bytes} {v v' : Vault} (d : Stored p name plaintext v v')
      → decrypt_entry p v' d.hmac_key
          (new_entry d.counter d.name_nonce d.name_ct d.data_nonce d.data_ct)
        ≡ ok (some plaintext)
  unfolding decrypt_entry
  decrypt_new_entry sound {name} {plaintext} {v} {v'} d =
      let len = sound.fill_length d.data_filled.at 24 d.data_nonce d.data_filled.answer in
      let same : v'.index.enc_key ≡ v.index.enc_key =
        ap (λ (w : Vault). w.index.enc_key) d.result in
      let opened =
        open_with_aad-seal_with_aad p sound d.enc_key d.data_nonce plaintext _ d.data_ct
          d.data_sealed in
      rw (split_nonce-append d.data_nonce d.data_ct len, same, d.extracted, opened)

  -- `decrypt_secret` by the two lookups that it makes.
  pub decrypt_secret_by :
      (v : Vault) (name : Bytes) {k : Bytes} {found : Option IndexEntry}
      → hmac_key_for_name p v.index name ≡ ok k
      → get k v.index.files ≡ found
      → decrypt_secret p v name ≡ decrypt_looked_up p v k found
  unfolding decrypt_secret lookup_by_key
  decrypt_secret_by v name {k} keyed found =
      ap (λ r. map_err from_index_error r >>= λ j. decrypt_looked_up p v j (get j v.index.files))
        keyed
      ∙ ap (decrypt_looked_up p v k) found

  -- An entry decrypts the same in every vault with the same encryption key.
  decrypt_looked_up_same :
      (v w : Vault) (k : Bytes) (found : Option IndexEntry)
      → w.index.enc_key ≡ v.index.enc_key
      → decrypt_looked_up p w k found ≡ decrypt_looked_up p v k found
  unfolding decrypt_entry
  decrypt_looked_up_same v w k none same = refl
  decrypt_looked_up_same v w k (some e) same = rw same refl

  -- On a platform that keeps the laws of `IsSound`: after a `store` that succeeded, `retrieve` of
  -- the same name returns the plaintext.
  pub retrieve-store :
      (sound : IsSound p) (name plaintext : Bytes) (s s' : Owned Vault)
      → store p name plaintext s ≡ (ok tt, s')
      → retrieve p s'.self name ≡ ok (some plaintext)
  unfolding retrieve
  retrieve-store sound name plaintext s s' h =
      let d = store-Stored p name plaintext s s' h in
      let keyed =
        ap (λ (w : Vault). hmac_key_for_name p w.index name) d.result
        ∙ (hmac_key_for_name-stored_index s.self.index _ _ name ∙ d.keyed) in
      let found =
        ap (λ (w : Vault). get d.hmac_key w.index.files) d.result
        ∙ get-insert_same d.hmac_key _ s.self.index.files in
      decrypt_secret_by s'.self name keyed found ∙ decrypt_new_entry sound d

  -- A `store` that succeeded leaves what `retrieve` returns for any name that has an HMAC key,
  -- when the stored name does not have the same key.
  pub retrieve_other-store :
      (name plaintext other : Bytes) (s s' : Owned Vault) (j : Bytes)
      → store p name plaintext s ≡ (ok tt, s')
      → hmac_key_for_name p s.self.index other ≡ ok j
      → hmac_key_for_name p s.self.index name ≢ ok j
      → retrieve p s'.self other ≡ retrieve p s.self other
  unfolding retrieve
  retrieve_other-store name plaintext other s s' j h keyed apart =
      let d = store-Stored p name plaintext s s' h in
      let keyed' =
        ap (λ (w : Vault). hmac_key_for_name p w.index other) d.result
        ∙ (hmac_key_for_name-stored_index s.self.index _ _ other ∙ keyed) in
      let differ : bytes_eq d.hmac_key j ≡ false =
        bytes_eq_ne d.hmac_key j (λ e. apart (d.keyed ∙ ap ok e)) in
      let found : get j s'.self.index.files ≡ get j s.self.index.files =
        ap (λ (w : Vault). get j w.index.files) d.result
        ∙ get-insert_other d.hmac_key j _ s.self.index.files differ in
      let same = ap (λ (w : Vault). w.index.enc_key) d.result in
      decrypt_secret_by s'.self other keyed' found
      ∙ (decrypt_looked_up_same s.self s'.self j _ same
          ∙ sym (decrypt_secret_by s.self other keyed refl))

  pub remove-eq :
      (name : Bytes) (v : Vault) {k : Bytes}
      → hmac_key_for_name p v.index name ≡ ok k
      → remove p name v ≡ (
        ok (is_some (remove_by_key k v.index).0),
        record v { index = (remove_by_key k v.index).1 },
      )
  unfolding remove
  remove-eq name v {k} keyed =
      ap
        (λ r.
          Exec.continue (map_err from_index_error r)
            (λ j w. (
              ok (is_some (remove_by_key j w.index).0),
              record w { index = (remove_by_key j w.index).1 },
            ))
            v)
        keyed

  looked_up_or_gone :
      (v w : Vault) (j : Bytes) (gone : Bool) (found : Option IndexEntry)
      → w.index.enc_key ≡ v.index.enc_key
      → decrypt_looked_up p w j (if gone then none else found)
        ≡ (if gone then ok none else decrypt_looked_up p v j found)
  looked_up_or_gone v w j true found same = refl
  looked_up_or_gone v w j false found same = decrypt_looked_up_same v w j found same

  retrieve_after_remove :
      (name other : Bytes) (v : Vault) (k j : Bytes)
      → HasDistinctKeys v.index.files
      → hmac_key_for_name p v.index other ≡ ok j
      → decrypt_secret p (record v { index = (remove_by_key k v.index).1 }) other
        ≡ (if bytes_eq k j then ok none else decrypt_secret p v other)
  unfolding hmac_key_for_name lookup_by_key
  retrieve_after_remove name other v k j distinct keyed =
      let (_, found, kept) = remove_by_key_lem k j v.index distinct in
      let after : Vault = record v { index = (remove_by_key k v.index).1 } in
      let same : hmac_key_for_name p after.index other ≡ hmac_key_for_name p v.index other =
        ap (λ (index : VaultIndex). hmac_key_for_name p index other) kept in
      let same_key : after.index.enc_key ≡ v.index.enc_key =
        ap (λ (index : VaultIndex). index.enc_key) kept in
      decrypt_secret_by after other (same ∙ keyed) found
      ∙ (looked_up_or_gone v after j (bytes_eq k j) (get j v.index.files) same_key
          ∙ ap (λ r. if bytes_eq k j then ok none else r)
              (sym (decrypt_secret_by v other keyed refl)))

  -- On an index with distinct keys, for two names that have HMAC keys: `remove` of the first says
  -- whether there was an entry under its key, and `retrieve` of the second then finds nothing if
  -- the keys are equal, and else returns what it did before.
  pub retrieve-remove :
      (name other : Bytes) (v : Vault) (k j : Bytes)
      → HasDistinctKeys v.index.files
      → hmac_key_for_name p v.index name ≡ ok k
      → hmac_key_for_name p v.index other ≡ ok j
      → let (removed, after) = remove p name v in
        (removed ≡ ok (is_some (get k v.index.files)))
        × (retrieve p after other ≡ (if bytes_eq k j then ok none else retrieve p v other))
  unfolding retrieve lookup_by_key
  retrieve-remove name other v k j distinct keyed keyed_other = rw (remove-eq name v keyed) (
    ap (λ e. ok (is_some e)) (remove_by_key_lem k j v.index distinct).0,
    retrieve_after_remove name other v k j distinct keyed_other,
  )
