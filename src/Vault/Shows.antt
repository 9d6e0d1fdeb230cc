-- ===== src/Vault/Shows.antt =====
-- A vault that shows a list of names and plaintexts, and what each call does to that list.
use memseal.Prelude.{◌≡◌, refl, sym, ap, ◌∙◌, subst, Option, some, All}
use memseal.Bytes.{Bytes}
use memseal.Errors.{ok, ok-injective}
use memseal.HashMap.{HashMap, get, insert, remove, HasDistinctKeys}
use memseal.HashMap.Laws.{insert-HasDistinctKeys, remove-HasDistinctKeys, insert-All, remove-All}
use memseal.Bytes.Equality.{bytes_eq→eq}
use memseal.Platform.{Platform, IsSound}
use memseal.Types.{IndexEntry, VaultIndex, Vault}
use memseal.Utf8.{from_utf8}
use memseal.Owned.{Owned}
use memseal.Codec.Decode.{is_some}
use memseal.Index.Map.{remove_by_key-remove}
use memseal.Index.Keys.{hmac_key_for_name}
use memseal.Vault.Keys.{extract_enc_key}
use memseal.Vault.Secrets.{retrieve}
use memseal.Vault.Store.{store}
use memseal.Vault.Remove.{remove as remove_entry}
use memseal.Vault.Stored.{store-Stored, new_entry, stored_index}
use memseal.Vault.Retrieve.{hmac_key_for_name-stored_index, decrypt_secret_by, remove-eq}
use memseal.Vault.Represents.{
  Separates, Represents, Represents-same, insert-Represents, remove-Represents,
}
use memseal.Vault.Reading.{
  old_plaintexts-new_entry, decrypt_looked_up-Represents, is_some-Represents,
}

pub record Shows (p : Platform) (U : Bytes → Type 0) (v : Vault) (plain : HashMap Bytes)
    : Type 0 where
  pub enc_key : Bytes
  pub extracted : extract_enc_key v.index.enc_key ≡ ok enc_key
  pub represents : Represents p v.index enc_key v.index.files plain
  pub distinct : HasDistinctKeys plain
  pub allowed : All (λ q. U q.0) plain

module _ (p : Platform) (U : Bytes → Type 0) where
  -- The view depends on the entries and the subkeys only.
  pub Shows-same :
      (v w : Vault) (plain : HashMap Bytes)
      → w.index.files ≡ v.index.files
      → w.index.enc_key ≡ v.index.enc_key
      → w.index.hmac_key ≡ v.index.hmac_key
      → Shows p U v plain
      → Shows p U w plain
  unfolding hmac_key_for_name
  Shows-same v w plain files enc hmac s = record {
    enc_key = s.enc_key;
    extracted = ap extract_enc_key enc ∙ s.extracted;
    represents =
        subst (λ f. Represents p w.index s.enc_key f plain) (sym files)
          (Represents-same p v.index w.index s.enc_key v.index.files plain
            (λ m. ap (λ k. hmac_key_for_name p (record v.index { hmac_key = k }) m) hmac)
            s.represents);
    distinct = s.distinct;
    allowed = s.allowed;
  }

  pub retrieve-Shows :
      (v : Vault) (plain : HashMap Bytes) (n : Bytes)
      → Separates p U v.index
      → U n
      → Shows p U v plain
      → retrieve p v n ≡ ok (get n plain)
  unfolding retrieve
  retrieve-Shows v plain n separates un s =
      let (k, keyed) = separates.keyed n un in
      decrypt_secret_by p v n keyed refl
      ∙ decrypt_looked_up-Represents p U v separates s.enc_key k n v.index.files plain s.extracted
          un keyed s.allowed s.represents

  pub store-Shows :
      (sound : IsSound p) (name plaintext : Bytes) (s s' : Owned Vault) (plain : HashMap Bytes)
      → Separates p U s.self.index
      → U name
      → from_utf8 name ≡ some name
      → Shows p U s.self plain
      → store p name plaintext s ≡ (ok tt, s')
      → Shows p U s'.self (insert name plaintext plain)
  store-Shows sound name plaintext s s' plain separates un text shows h =
      let d = store-Stored p name plaintext s s' h in
      let e = new_entry d.counter d.name_nonce d.name_ct d.data_nonce d.data_ct in
      let after = stored_index s.self.index d.hmac_key e in
      let same_key : shows.enc_key ≡ d.enc_key = ok-injective (sym shows.extracted ∙ d.extracted) in
      let before : Represents p s.self.index d.enc_key s.self.index.files plain =
        subst (λ k. Represents p s.self.index k s.self.index.files plain) same_key
          shows.represents in
      let opens = old_plaintexts-new_entry p sound d text in
      let represents : Represents p after d.enc_key after.files (insert name plaintext plain) =
        Represents-same p s.self.index after d.enc_key after.files (insert name plaintext plain)
          (λ m. hmac_key_for_name-stored_index p s.self.index d.hmac_key e m)
          (insert-Represents p U s.self.index separates d.enc_key d.hmac_key name plaintext e
            s.self.index.files plain un d.keyed opens shows.allowed before) in
      subst (λ v. Shows p U v (insert name plaintext plain)) (sym d.result)
        (record {
          enc_key = d.enc_key;
          extracted = d.extracted;
          represents = represents;
          distinct = insert-HasDistinctKeys name plaintext plain shows.distinct;
          allowed =
              insert-All (λ q. U q.0) name plaintext plain
                (λ j same. subst U (sym (bytes_eq→eq j name same)) un) shows.allowed;
        })

  pub remove-Shows :
      (name : Bytes) (v : Vault) (plain : HashMap Bytes)
      → Separates p U v.index
      → U name
      → Shows p U v plain
      → let (removed, after) = remove_entry p name v in
        (removed ≡ ok (is_some (get name plain))) × Shows p U after (remove name plain)
  remove-Shows name v plain separates un shows =
      let (k, keyed) = separates.keyed name un in
      let after : Vault = record v { index = record v.index { files = remove k v.index.files } } in
      let run : remove_entry p name v ≡ (ok (is_some (get k v.index.files)), after) =
        remove-eq p name v keyed
        ∙ ap (λ (q : Option IndexEntry × VaultIndex). (ok (is_some q.0), record v { index = q.1 }))
            (remove_by_key-remove k v.index) in
      (
        ap (λ q. q.0) run
            ∙ ap ok (
                is_some-Represents p U v separates shows.enc_key k name v.index.files plain un keyed
                  shows.allowed shows.represents),
        subst (λ w. Shows p U w (remove name plain)) (ap (λ q. q.1) (sym run)) (shown k keyed),
      )
    where
      shown :
          (k : Bytes)
          → hmac_key_for_name p v.index name ≡ ok k
          → Shows p U
              (record v { index = record v.index { files = remove k v.index.files } })
              (remove name plain)
      shown k keyed = record {
        enc_key = shows.enc_key;
        extracted = shows.extracted;
        represents =
            Represents-same p v.index (record v.index { files = remove k v.index.files })
              shows.enc_key (remove k v.index.files) (remove name plain)
              (λ m. unfold hmac_key_for_name in refl)
              (remove-Represents p U v.index separates shows.enc_key k name v.index.files plain un
                keyed shows.allowed shows.represents);
        distinct = remove-HasDistinctKeys name plain shows.distinct;
        allowed = remove-All (λ q. U q.0) name plain shows.allowed;
      }
