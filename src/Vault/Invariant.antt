-- ===== src/Vault/Invariant.antt =====
-- `store` and `remove` keep the invariant of the index.
use memseal.Prelude.{◌<◌, ◌≡◌, refl, sym, subst, arith, inl, inr, length-append, Bool}
use memseal.Constants.{u64_max}
use memseal.Exec.{pure_post}
use memseal.Bytes.{Bytes}
use memseal.Errors.{Result, map_err, from_index_error, ok, err, VaultError, >>=-eq-ok, ok-injective}
use memseal.Platform.{Platform, IsSound}
use memseal.Types.{VaultIndex, Vault}
use memseal.Owned.{Owned}
use memseal.Codec.Hex.{hex_to_key-key_to_hex}
use memseal.Codec.Sizes.{IsStorable}
use memseal.Crypto.Random.{ok_or}
use memseal.Crypto.Aead.{length-seal_with_aad, ok_or-eq-ok}
use memseal.Index.Keys.{hmac_key_for_name}
use memseal.Index.Valid.{IsValid, IsHexKey, insert-IsValid, remove_by_key-IsValid, AllBelow-weaken}
use memseal.Vault.Store.{store}
use memseal.Vault.Remove.{remove}
use memseal.Vault.Stored.{Stored, store-Stored, new_entry}
use memseal.Vault.Failing.{store_failing, IsSpared, counted}

module _ (p : Platform) (sound : IsSound p) where
  -- An HMAC key is the hexadecimal form of a 32-byte tag.
  hmac_key_for_name-IsHexKey :
      (index : VaultIndex) (name k : Bytes) → hmac_key_for_name p index name ≡ ok k → IsHexKey k
  unfolding hmac_key_for_name
  hmac_key_for_name-IsHexKey index name k h =
      let (tag, t1, q1) = >>=-eq-ok _ _ h in
      let (key, t2, q2) = >>=-eq-ok (ok_or (p.hmac_key_from_slice index.hmac_key.region) _) _ t1 in
      let answer = ok_or-eq-ok (p.hmac key name) _ tag q2 in
      subst IsHexKey (ok-injective q1) (record {
        key = tag;
        decoded =
            hex_to_key-key_to_hex tag (sound.hmac_bytes key name tag answer)
              (sound.hmac_length key name tag answer);
      })

  new_entry-IsStorable :
      {name plaintext : Bytes} {v v' : Vault} (d : Stored p name plaintext v v')
      → IsStorable (new_entry d.counter d.name_nonce d.name_ct d.data_nonce d.data_ct)
  new_entry-IsStorable {name} {plaintext} {v} {v'} d =
      let n1 = sound.fill_length d.name_filled.at 24 d.name_nonce d.name_filled.answer in
      let n2 = sound.fill_length d.data_filled.at 24 d.data_nonce d.data_filled.answer in
      let l1 = length-seal_with_aad p sound d.enc_key d.name_nonce name _ d.name_ct d.name_sealed in
      let l2 =
        length-seal_with_aad p sound d.enc_key d.data_nonce plaintext _ d.data_ct d.data_sealed in
      let a1 = length-append d.name_nonce d.name_ct in
      let a2 = length-append d.data_nonce d.data_ct in
      record {
        counter = omega (arith, d.counter_fits);
        sizes = record {
          name_lo = omega arith;
          name_hi = omega (arith, d.name_fits);
          data_lo = omega arith;
          data_hi = omega (arith, d.data_fits);
        };
      }

  Stored-IsValid :
      {name plaintext : Bytes} {v v' : Vault}
      → Stored p name plaintext v v'
      → IsValid v.index
      → IsValid v'.index
  Stored-IsValid {name} {plaintext} {v} {v'} d valid =
      subst (λ (w : Vault). IsValid w.index) (sym d.result)
        (insert-IsValid v.index d.hmac_key _ valid
          (hmac_key_for_name-IsHexKey v.index name d.hmac_key d.keyed) (new_entry-IsStorable d)
          d.counted (subst (λ n. n < u64_max) d.counted d.counter_fits) d.room)

  counted-IsValid :
      (v : Vault)
      → v.index.data_nonce_counter < u64_max
      → IsValid v.index
      → IsValid (counted v).index
  counted-IsValid v fits valid = record {
    encodable = record {
      nonce_counter_fits = valid.encodable.nonce_counter_fits;
      data_nonce_counter_fits = omega arith;
      count = valid.encodable.count;
      distinct = valid.encodable.distinct;
      storable = valid.encodable.storable;
    };
    keyed = valid.keyed;
    below = AllBelow-weaken v.index.data_nonce_counter v.index.files valid.below;
  }

  spared-IsValid : (v v' : Vault) → IsSpared v v' → IsValid v.index → IsValid v'.index
  spared-IsValid v v' (inl same) valid = subst (λ (w : Vault). IsValid w.index) (sym same) valid
  spared-IsValid v v' (inr (fits, one)) valid =
      subst (λ (w : Vault). IsValid w.index) (sym one) (counted-IsValid v fits valid)

  -- On a platform that keeps the laws of `IsSound`: a `store`, whether it succeeds or fails, keeps
  -- the index valid: at most 1024 entries under distinct hexadecimal keys, valid ciphertext
  -- lengths, `u64` counters, and every entry counter below the next one.
  pub store-IsValid :
      (name plaintext : Bytes) (s : Owned Vault)
      → IsValid s.self.index
      → IsValid (store p name plaintext s).1.self.index
  store-IsValid name plaintext s valid = by_outcome (store p name plaintext s) refl
    where
      by_outcome :
          (q : Result VaultError (Unit {0}) × Owned Vault)
          → store p name plaintext s ≡ q
          → IsValid q.1.self.index
      by_outcome (ok u, t) h = Stored-IsValid (store-Stored p name plaintext s t h) valid
      by_outcome (err e, t) h =
          spared-IsValid s.self t.self (store_failing p name plaintext e s t h) valid

  -- On a platform that keeps the laws of `IsSound`: a `remove`, whether it succeeds or fails,
  -- keeps the index valid.
  pub remove-IsValid :
      (name : Bytes) (v : Vault) → IsValid v.index → IsValid (remove p name v).1.index
  unfolding remove
  remove-IsValid name v valid =
      pure_post Q (map_err from_index_error (hmac_key_for_name p v.index name)) _ v (λ _ _. valid)
        (λ k h. remove_by_key-IsValid k v.index valid)
    where
      Q : Result VaultError Bool × Vault → Type 0
      Q q = IsValid q.1.index
