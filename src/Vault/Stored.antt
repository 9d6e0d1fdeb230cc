-- ===== src/Vault/Stored.antt =====
-- What a successful `store` has done.
use memseal.Prelude.{
  ℕ, ◌+◌, ◌≤◌, ◌<◌, ◌≡◌, sym, ap, ◌∙◌, subst, false, none, some, ◌++◌, length, ltb, arith,
}
use memseal.Constants.{max_entry_name_len, max_entry_data_size, max_index_entries, u64_max}
use memseal.Bytes.{Bytes}
use memseal.Errors.{
  ok, from_index_error, from_aead_error, fail_if-eq-ok, map_err as map_err_result, map_err-eq-ok,
  fail_if as fail_if_result, from_random_error,
}
use memseal.Exec.{pure_step, state_step, mapped}
use memseal.HashMap.{get, insert}
use memseal.Platform.{Platform, Os}
use memseal.Types.{IndexEntry, VaultIndex, Vault}
use memseal.Owned.{Owned, on_os, on_self, on_index}
use memseal.Crypto.Random.{secure_bytes_fill}
use memseal.Crypto.Aead.{seal_with_aad}
use memseal.Index.{next_data_nonce_counter, insert_by_key}
use memseal.Index.Keys.{hmac_key_for_name}
use memseal.Vault.Keys.{build_entry_aad, extract_enc_key}
use memseal.Vault.Store.{store}

-- A successful fill returns what the operating system gave, and touches nothing but the world.
pub record Filled (p : Platform) (n : ℕ) (bytes : Bytes) : Type 0 where
  pub at : ℕ
  pub answer : p.try_fill_bytes at n ≡ some bytes

pub secure_bytes_fill-Filled :
    (p : Platform) (n : ℕ) (bytes : Bytes) (os os' : Os)
    → secure_bytes_fill p n os ≡ (ok bytes, os')
    → Filled p n bytes
unfolding secure_bytes_fill
secure_bytes_fill-Filled p n bytes os os' h = record { at = os.calls; answer = ground arith }

fill_on_os :
    (p : Platform) (n : ℕ) (bytes : Bytes) (s s' : Owned Vault)
    → on_os (secure_bytes_fill p n) s ≡ (ok bytes, s')
    → Filled p n bytes × (s'.self ≡ s.self)
fill_on_os p n bytes s s' h =
    (secure_bytes_fill-Filled p n bytes s.os s'.os (cc h), ap (λ q. q.1.self) (sym h))

pub next_counter_step :
    (n : ℕ) (s s' : Owned Vault)
    → on_index (on_self next_data_nonce_counter) s ≡ (ok n, s')
    → (n ≡ s.self.index.data_nonce_counter)
      × (n < u64_max)
      × (s'.self ≡ record s.self { index = record s.self.index { data_nonce_counter = n + 1 } })
unfolding next_data_nonce_counter
next_counter_step n s s' h = ground arith

insert_step :
    (k : Bytes) (e : IndexEntry) (s s' : Owned Vault)
    → on_index (on_self (insert_by_key k e)) s ≡ (ok tt, s')
    → (s'.self
        ≡ record s.self { index = record s.self.index { files = insert k e s.self.index.files } })
      × (get k s.self.index.files ≡ none → length s.self.index.files < max_index_entries)
unfolding insert_by_key
insert_step k e s s' h = ground arith

-- The entry that `store` builds.
abbrev pub new_entry : ℕ → Bytes → Bytes → Bytes → Bytes → IndexEntry
new_entry counter name_nonce name_ct data_nonce data_ct = record {
  data_counter = counter;
  encrypted_name = name_nonce ++ name_ct;
  encrypted_data = data_nonce ++ data_ct;
}

-- The index after `store` has put an entry under a key.
abbrev pub stored_index : VaultIndex → Bytes → IndexEntry → VaultIndex
stored_index index k e = record index {
  data_nonce_counter = e.data_counter + 1;
  files = insert k e index.files;
}

pub record Stored (p : Platform) (name plaintext : Bytes) (v v' : Vault) : Type 0 where
  pub hmac_key : Bytes
  pub enc_key : Bytes
  pub counter : ℕ
  pub data_nonce : Bytes
  pub name_nonce : Bytes
  pub data_ct : Bytes
  pub name_ct : Bytes
  pub name_fits : length name ≤ max_entry_name_len
  pub data_fits : length plaintext ≤ max_entry_data_size
  pub keyed : hmac_key_for_name p v.index name ≡ ok hmac_key
  pub extracted : extract_enc_key v.index.enc_key ≡ ok enc_key
  pub counted : counter ≡ v.index.data_nonce_counter
  pub counter_fits : counter < u64_max
  pub data_filled : Filled p 24 data_nonce
  pub name_filled : Filled p 24 name_nonce
  pub data_sealed :
      seal_with_aad p enc_key data_nonce plaintext (build_entry_aad hmac_key counter) ≡ ok data_ct
  pub name_sealed :
      seal_with_aad p enc_key name_nonce name (build_entry_aad hmac_key counter) ≡ ok name_ct
  pub room : get hmac_key v.index.files ≡ none → length v.index.files < max_index_entries
  pub result : v' ≡ record v {
    index = stored_index v.index hmac_key (new_entry counter name_nonce name_ct data_nonce data_ct);
  }

-- The steps of `store` put together.
stored :
    {name plaintext k key dn nn dc nc : Bytes} {n : ℕ} {s1 s2 s3 s4 : Owned Vault} (p : Platform)
    (s : Owned Vault)
    → ltb 255 (length name) ≡ false
    → ltb 67108864 (length plaintext) ≡ false
    → hmac_key_for_name p s.self.index name ≡ ok k
    → on_index (on_self next_data_nonce_counter) s ≡ (ok n, s1)
    → on_os (secure_bytes_fill p 24) s1 ≡ (ok dn, s2)
    → on_os (secure_bytes_fill p 24) s2 ≡ (ok nn, s3)
    → extract_enc_key s.self.index.enc_key ≡ ok key
    → seal_with_aad p key dn plaintext (build_entry_aad k n) ≡ ok dc
    → seal_with_aad p key nn name (build_entry_aad k n) ≡ ok nc
    → on_index (on_self (insert_by_key k (new_entry n nn nc dn dc))) s3 ≡ (ok tt, s4)
    → Stored p name plaintext s.self s4.self
stored {name} {plaintext} {k} {key} {dn} {nn} {dc} {nc} {n} {s1} {s2} {s3} {s4} p s t1 t2 hk c f1 f2
      ek sd sn ins =
    let (counted, fits, after_count) = next_counter_step n s s1 c in
    let (filled1, same1) = fill_on_os p 24 dn s1 s2 f1 in
    let (filled2, same2) = fill_on_os p 24 nn s2 s3 f2 in
    let (written, space) = insert_step k (new_entry n nn nc dn dc) s3 s4 ins in
    let before = same2 ∙ (same1 ∙ after_count) in
    record {
      hmac_key = k;
      enc_key = key;
      counter = n;
      data_nonce = dn;
      name_nonce = nn;
      data_ct = dc;
      name_ct = nc;
      name_fits = ground arith;
      data_fits = ground arith;
      keyed = hk;
      extracted = ek;
      counted = counted;
      counter_fits = fits;
      data_filled = filled1;
      name_filled = filled2;
      data_sealed = sd;
      name_sealed = sn;
      room =
          subst
            (λ (v : Vault). get k v.index.files ≡ none → length v.index.files < max_index_entries)
            before space;
      result =
          subst
            (λ (v : Vault). s4.self ≡ record v {
              index = record v.index { files = insert k (new_entry n nn nc dn dc) v.index.files };
            })
            before written;
    }

pub store-Stored :
    (p : Platform) (name plaintext : Bytes) (s s' : Owned Vault)
    → store p name plaintext s ≡ (ok tt, s')
    → Stored p name plaintext s.self s'.self
unfolding store
store-Stored p name plaintext s s' h =
    pure_step G (fail_if_result (ltb 255 (length name)) _) _ h λ u1 o1 q1.
      pure_step G (fail_if_result (ltb 67108864 (length plaintext)) _) _ q1 λ u2 o2 q2.
        pure_step G (map_err_result from_index_error (hmac_key_for_name p s.self.index name)) _ q2
          λ k hk q3.
            state_step G from_index_error (on_index (on_self next_data_nonce_counter) s) _ q3
              λ n s1 t1 q4.
                state_step G from_random_error (on_os (secure_bytes_fill p 24) s1) _ q4
                  λ dn s2 t2 q5.
                    state_step G from_random_error (on_os (secure_bytes_fill p 24) s2) _ q5
                      λ nn s3 t3 q6.
                        pure_step G (extract_enc_key s.self.index.enc_key) _ q6 λ key ek q7.
                          pure_step G
                            (map_err_result from_aead_error
                              (seal_with_aad p key dn plaintext (build_entry_aad k n)))
                            _ q7
                            λ dc sd q8.
                              pure_step G
                                (map_err_result from_aead_error
                                  (seal_with_aad p key nn name (build_entry_aad k n)))
                                _ q8
                                λ nc sn q9.
                                  stored p s (fail_if-eq-ok _ _ o1) (fail_if-eq-ok _ _ o2)
                                    (map_err-eq-ok _ _ hk) t1 t2 t3 ek (map_err-eq-ok _ _ sd)
                                    (map_err-eq-ok _ _ sn) (mapped from_index_error _ q9)
  where
    G : Type 0
    G = Stored p name plaintext s.self s'.self
