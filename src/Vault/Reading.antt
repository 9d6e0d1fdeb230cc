-- ===== src/Vault/Reading.antt =====
-- What `decrypt_secret` finds in entries that stand for names and plaintexts, and what the entry
-- that `store` builds stands for.
use memseal.Prelude.{
  ◌≡◌, refl, ap, subst, Bool, true, false, Option, some, [], ◌∷◌, All, if◌then◌else◌,
}
use memseal.Bytes.{Bytes, bytes_eq}
use memseal.Bytes.Equality.{bytes_eq→eq}
use memseal.Errors.{
  ok, ok-injective, >>=-eq-ok, map_err, map_err-eq-ok, from_aead_error, corrupted_data,
  invalid_entry_name,
}
use memseal.HashMap.{HashMap, get}
use memseal.Platform.{Platform, IsSound}
use memseal.Types.{IndexEntry, Vault}
use memseal.Utf8.{from_utf8}
use memseal.Crypto.Random.{ok_or}
use memseal.Crypto.Aead.{open_with_aad, open_with_aad-seal_with_aad}
use memseal.Codec.Decode.{is_some}
use memseal.Index.Keys.{hmac_key_for_name}
use memseal.Vault.Keys.{split_nonce, build_entry_aad, extract_enc_key}
use memseal.Vault.Secrets.{decrypt_entry, decrypt_looked_up, old_plaintexts}
use memseal.Vault.Stored.{Stored, new_entry}
use memseal.Vault.Retrieve.{split_nonce-append}
use memseal.Vault.Represents.{Separates, Represents, same_test}

module _ (p : Platform) where
  -- What an entry holds for `rekey` is what `decrypt_secret` returns for it.
  decrypt_entry-old_plaintexts :
      (v : Vault) (enc_key k n t : Bytes) (e : IndexEntry)
      → extract_enc_key v.index.enc_key ≡ ok enc_key
      → old_plaintexts p enc_key k e ≡ ok (n, t)
      → decrypt_entry p v k e ≡ ok (some t)
  unfolding decrypt_entry old_plaintexts
  decrypt_entry-old_plaintexts v enc_key k n t e extracted h =
      let aad = build_entry_aad k e.data_counter in
      let (a, _, h1) = >>=-eq-ok (split_nonce e.encrypted_name) _ h in
      let (b, _, h2) =
        >>=-eq-ok (map_err from_aead_error (open_with_aad p enc_key a.0 a.1 aad)) _ h1 in
      let (c, _, h3) = >>=-eq-ok (ok_or (from_utf8 b) (corrupted_data invalid_entry_name)) _ h2 in
      let (d, split, h4) = >>=-eq-ok (split_nonce e.encrypted_data) _ h3 in
      let (u, opened, h5) =
        >>=-eq-ok (map_err from_aead_error (open_with_aad p enc_key d.0 d.1 aad)) _ h4 in
      let same : u ≡ t = ap (λ (q : Bytes × Bytes). q.1) (ok-injective h5) in
      rw (split, extracted, map_err-eq-ok from_aead_error _ opened) (ap (λ x. ok (some x)) same)

  -- The entry that `store` builds holds the name and the plaintext.
  pub old_plaintexts-new_entry :
      IsSound p
      → {name plaintext : Bytes} {v v' : Vault} (d : Stored p name plaintext v v')
      → from_utf8 name ≡ some name
      → old_plaintexts p d.enc_key d.hmac_key
          (new_entry d.counter d.name_nonce d.name_ct d.data_nonce d.data_ct)
        ≡ ok (name, plaintext)
  unfolding old_plaintexts
  old_plaintexts-new_entry sound {name} {plaintext} {v} {v'} d text =
      let data_len = sound.fill_length d.data_filled.at 24 d.data_nonce d.data_filled.answer in
      let name_len = sound.fill_length d.name_filled.at 24 d.name_nonce d.name_filled.answer in
      let data_opened =
        open_with_aad-seal_with_aad p sound d.enc_key d.data_nonce plaintext _ d.data_ct
          d.data_sealed in
      let name_opened =
        open_with_aad-seal_with_aad p sound d.enc_key d.name_nonce name _ d.name_ct d.name_sealed in
      rw
        (
          split_nonce-append d.name_nonce d.name_ct name_len,
          name_opened,
          text,
          split_nonce-append d.data_nonce d.data_ct data_len,
          data_opened,
        )
        refl

  module _ (U : Bytes → Type 0) (v : Vault) (separates : Separates p U v.index) where
    looked_up_if :
        (b c : Bool) (k : Bytes) (e : IndexEntry) (t : Bytes) (found : Option IndexEntry)
        (rest : Option Bytes)
        → b ≡ c
        → (b ≡ true → decrypt_looked_up p v k (some e) ≡ ok (some t))
        → decrypt_looked_up p v k found ≡ ok rest
        → decrypt_looked_up p v k (if b then some e else found) ≡ ok (if c then some t else rest)
    looked_up_if true true k e t found rest h f g = f refl
    looked_up_if false false k e t found rest h f g = g
    looked_up_if true false k e t found rest h f g = cc
    looked_up_if false true k e t found rest h f g = cc

    -- The lookup by the key of a name decrypts to what the names and plaintexts hold.
    pub decrypt_looked_up-Represents :
        (enc_key k n : Bytes) (files : HashMap IndexEntry) (plain : HashMap Bytes)
        → extract_enc_key v.index.enc_key ≡ ok enc_key
        → U n
        → hmac_key_for_name p v.index n ≡ ok k
        → All (λ q. U q.0) plain
        → Represents p v.index enc_key files plain
        → decrypt_looked_up p v k (get k files) ≡ ok (get n plain)
    unfolding get
    decrypt_looked_up-Represents enc_key k n [] [] extracted un keyed all h = refl
    decrypt_looked_up-Represents enc_key k n [] (q ∷ plain) extracted un keyed all h = absurd h
    decrypt_looked_up-Represents enc_key k n (f ∷ files) [] extracted un keyed all h = absurd h
    decrypt_looked_up-Represents enc_key k n ((j, x) ∷ files) ((m, u) ∷ plain) extracted un keyed
          all (opens, keyed_m, h) =
        looked_up_if (bytes_eq j k) (bytes_eq m n) k x u (get k files) (get n plain)
          (same_test p U v.index separates j k m n all.0 un keyed_m keyed)
          (λ same.
            decrypt_entry-old_plaintexts v enc_key k m u x extracted
              (subst (λ i. old_plaintexts p enc_key i x ≡ ok (m, u)) (bytes_eq→eq j k same) opens))
          (decrypt_looked_up-Represents enc_key k n files plain extracted un keyed all.1 h)

    is_some-if :
        (b c : Bool) (e : IndexEntry) (t : Bytes) (found : Option IndexEntry) (rest : Option Bytes)
        → b ≡ c
        → is_some found ≡ is_some rest
        → is_some (if b then some e else found) ≡ is_some (if c then some t else rest)
    is_some-if true true e t found rest h g = refl
    is_some-if false false e t found rest h g = g
    is_some-if true false e t found rest h g = cc
    is_some-if false true e t found rest h g = cc

    -- There is an entry under the key exactly when the name is held.
    pub is_some-Represents :
        (enc_key k n : Bytes) (files : HashMap IndexEntry) (plain : HashMap Bytes)
        → U n
        → hmac_key_for_name p v.index n ≡ ok k
        → All (λ q. U q.0) plain
        → Represents p v.index enc_key files plain
        → is_some (get k files) ≡ is_some (get n plain)
    unfolding get
    is_some-Represents enc_key k n [] [] un keyed all h = refl
    is_some-Represents enc_key k n [] (q ∷ plain) un keyed all h = absurd h
    is_some-Represents enc_key k n (f ∷ files) [] un keyed all h = absurd h
    is_some-Represents enc_key k n ((j, x) ∷ files) ((m, u) ∷ plain) un keyed all
          (opens, keyed_m, h) =
        is_some-if (bytes_eq j k) (bytes_eq m n) x u (get k files) (get n plain)
          (same_test p U v.index separates j k m n all.0 un keyed_m keyed)
          (is_some-Represents enc_key k n files plain un keyed all.1 h)
