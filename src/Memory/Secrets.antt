-- ===== src/Memory/Secrets.antt =====
-- What one call of `LockedSecret::new` or of its drop does to memory.
use memseal.Prelude.{
  ℕ, ◌≡◌, ◌≢◌, refl, sym, ap, ◌∙◌, subst, Bool, true, false, false≢true, Option, none, some, length,
  replicate, ◌==◌, ==_iff, if◌then◌else◌, arith, length-replicate, ◌⊎◌, inl, inr,
}
use memseal.Bytes.{Bytes}
use memseal.Errors.{Result, ok, err, LockedSecretError, empty}
use memseal.Memory.{
  Memsec, LockedRegion, Locked, fill_zero, new_region, drop_region, copy_from_slice, filled_with,
  new_secret, drop_secret, zeroed_or_freed, locked_or_none, copied,
}
use memseal.Memory.Laws.{IsSameAt, IsMemsec}

pub same_or_other : (r q : ℕ) → (r ≡ q) ⊎ (r ≢ q)
same_or_other r q = by_test (r == q) refl
  where
    by_test : (b : Bool) → (r == q) ≡ b → (r ≡ q) ⊎ (r ≢ q)
    by_test true h = inl (ground (arith, ==_iff r q))
    by_test false h = inr (ground (arith, ==_iff r q))

module _ {M : Type 0} (m : Memsec M) where
  IsSameAt-refl : (q : ℕ) (h : M) → IsSameAt m q h h
  IsSameAt-refl q h = record { live = refl; locked = refl; bytes = refl }

  IsSameAt-trans :
      (q : ℕ) (h h' h'' : M) → IsSameAt m q h h' → IsSameAt m q h' h'' → IsSameAt m q h h''
  IsSameAt-trans q h h' h'' a b = record {
    live = b.live ∙ a.live;
    locked = b.locked ∙ a.locked;
    bytes = b.bytes ∙ a.bytes;
  }

  -- A region that is in use now and was not before, locked and of this content; nothing else has
  -- changed.
  pub record IsPlaced (h h' : M) (q : ℕ) (content : Bytes) : Type 0 where
    pub was_free : m.live h q ≡ false
    pub live : m.live h' q ≡ true
    pub locked : m.locked h' q ≡ true
    pub bytes : m.bytes h' q ≡ content
    pub others : (r : ℕ) → r ≢ q → IsSameAt m r h h'

  -- No allocation is left behind, and none that was in use has changed.
  pub record IsUndisturbed (h h' : M) : Type 0 where
    pub live : (r : ℕ) → m.live h' r ≡ m.live h r
    pub kept : (r : ℕ) → m.live h r ≡ true → IsSameAt m r h h'

  RegionResult : ℕ → M → Result LockedSecretError LockedRegion × M → Type 0
  RegionResult n h (ok region, h') = IsPlaced h h' region.ptr (replicate n 0)
  RegionResult n h (err e, h') = IsUndisturbed h h'

  -- What `LockedSecret::new` may end with: no panic; a region of its own with the secret, or an error
  -- that leaves nothing behind.
  abbrev pub SecretResult : Bytes → M → Option (Result LockedSecretError Locked × M) → Type 0
  SecretResult secret h none = ⊥
  SecretResult secret h (some (ok s, h')) = IsPlaced h h' s.region.ptr secret
  SecretResult secret h (some (err e, h')) = IsUndisturbed h h'

  -- A drop wipes the region, which stays locked until then, and gives it back; nothing else changes.
  pub record IsDropped (s : Locked) (h h' : M) : Type 0 where
    pub wiped : M
    pub freed : h' ≡ m.free s.region.ptr wiped
    pub zeros : m.bytes wiped s.region.ptr ≡ replicate (length (m.bytes h s.region.ptr)) 0
    pub still_locked : m.locked wiped s.region.ptr ≡ m.locked h s.region.ptr
    pub gone : m.live h' s.region.ptr ≡ false
    pub others : (r : ℕ) → r ≢ s.region.ptr → IsSameAt m r h h'

  module _ (laws : IsMemsec m) where
    zeroed_or_freed_lem :
        (n q : ℕ) (h h1 : M)
        → m.malloc_sized n h ≡ (some q, h1)
        → (r : Bool × M) → m.mlock q n h1 ≡ r
        → RegionResult n h (zeroed_or_freed m q r)
    unfolding zeroed_or_freed fill_zero RegionResult
    zeroed_or_freed_lem n q h h1 a (true, h2) b =
        let (was_free, live, long) = laws.malloc_new n q h h1 a in
        let (live2, bytes2) = laws.mlock_keeps q n h1 in
        let same_bytes : m.bytes h2 q ≡ m.bytes h1 q =
          ap (λ (r : Bool × M). m.bytes r.1 q) (sym b) ∙ bytes2 in
        let zeros = replicate (length (m.bytes h2 q)) 0 in
        let (live3, locked3) = laws.write_keeps q zeros h2 in
        record {
          was_free = was_free;
          live = live3 ∙ (ap (λ (r : Bool × M). m.live r.1 q) (sym b) ∙ (live2 ∙ live));
          locked = locked3 ∙ laws.mlock_locks q n h1 h2 b;
          bytes =
              laws.write_bytes q zeros h2 (length-replicate (length (m.bytes h2 q)) 0)
              ∙ ap (λ k. replicate k 0) (ap length same_bytes ∙ long);
          others = λ r apart.
              IsSameAt-trans r h h2 _
                (IsSameAt-trans r h h1 h2 (laws.malloc_others n q h h1 a r apart) (
                  subst (λ (x : Bool × M). IsSameAt m r h1 x.1) b
                    (laws.mlock_others q n h1 r apart)))
                (laws.write_others q zeros h2 r apart);
        }
    zeroed_or_freed_lem n q h h1 a (false, h2) b =
        let (was_free, live, long) = laws.malloc_new n q h h1 a in
        let others : (r : ℕ) → r ≢ q → IsSameAt m r h (m.free q h2) = λ r apart.
          IsSameAt-trans r h h2 _
            (IsSameAt-trans r h h1 h2 (laws.malloc_others n q h h1 a r apart)
              (subst (λ (x : Bool × M). IsSameAt m r h1 x.1) b (laws.mlock_others q n h1 r apart)))
            (laws.free_others q h2 r apart) in
        record {
          live = λ r. elim (same_or_other r q) [
            | inl same ↦
                ap (m.live (m.free q h2)) same
                ∙ (laws.free_gone q h2 ∙ (sym was_free ∙ ap (m.live h) (sym same)))
            | inr apart ↦ (others r apart).live
          ];
          kept = λ r used.
              others r λ same. false≢true (sym was_free ∙ (ap (m.live h) (sym same) ∙ used));
        }

    new_region_lem : (n : ℕ) (h : M) → RegionResult n h (new_region m n h)
    unfolding new_region locked_or_none RegionResult
    new_region_lem n h = by_malloc (m.malloc_sized n h) refl
      where
        by_malloc :
            (r : Option ℕ × M) → m.malloc_sized n h ≡ r → RegionResult n h (locked_or_none m n r)
        by_malloc (none, h1) a = record {
          live = λ r. (laws.malloc_none n h h1 a r).live;
          kept = λ r used. laws.malloc_none n h h1 a r;
        }
        by_malloc (some q, h1) a = zeroed_or_freed_lem n q h h1 a (m.mlock q n h1) refl

    filled_with_lem :
        (secret : Bytes) (h : M) (r : Result LockedSecretError LockedRegion × M)
        → RegionResult (length secret) h r
        → SecretResult secret h (filled_with m secret r)
    unfolding filled_with copy_from_slice copied RegionResult
    filled_with_lem secret h (err e, h1) d = d
    filled_with_lem secret h (ok region, h1) d =
        let q = region.ptr in
        let long : length (m.bytes h1 q) ≡ length secret =
          ap length d.bytes ∙ length-replicate (length secret) 0 in
        let fits : length secret == length (m.bytes h1 q) ≡ true =
          (==_iff (length secret) (length (m.bytes h1 q))).1 (sym long) in
        let (live, locked) = laws.write_keeps q secret h1 in
        let placed : IsPlaced h (m.write q secret h1) q secret = record {
          was_free = d.was_free;
          live = live ∙ d.live;
          locked = locked ∙ d.locked;
          bytes = laws.write_bytes q secret h1 (sym long);
          others = λ r apart.
              IsSameAt-trans r h h1 _ (d.others r apart) (laws.write_others q secret h1 r apart);
        } in
        subst
          (λ b.
            SecretResult secret h
              (copied m region (if b then some (m.write q secret h1) else none)))
          (sym fits) placed

    IsUndisturbed-refl : (h : M) → IsUndisturbed h h
    IsUndisturbed-refl h = record { live = λ r. refl; kept = λ r used. IsSameAt-refl r h }

    -- `LockedSecret::new` does not panic. It returns a region that was not in use, is locked and holds
    -- the secret, and nothing else has changed; or an error, and then no allocation is left behind.
    pub new_secret_lem : (secret : Bytes) (h : M) → SecretResult secret h (new_secret m secret h)
    unfolding new_secret
    new_secret_lem secret h = by_length (length secret == 0)
      where
        by_length :
            (b : Bool)
            → SecretResult secret h (
                if b
                then some (err empty, h)
                else filled_with m secret (new_region m (length secret) h))
        by_length true = IsUndisturbed-refl h
        by_length false =
            filled_with_lem secret h (new_region m (length secret) h)
              (new_region_lem (length secret) h)

    pub drop_secret_lem : (s : Locked) (h : M) → IsDropped s h (drop_secret m s h)
    unfolding drop_secret drop_region fill_zero
    drop_secret_lem s h =
        let q = s.region.ptr in
        let zeros = replicate (length (m.bytes h q)) 0 in
        record {
          wiped = m.write q zeros h;
          freed = refl;
          zeros = laws.write_bytes q zeros h (length-replicate (length (m.bytes h q)) 0);
          still_locked = (laws.write_keeps q zeros h).1;
          gone = laws.free_gone q (m.write q zeros h);
          others = λ r apart.
              IsSameAt-trans r h (m.write q zeros h) _ (laws.write_others q zeros h r apart)
                (laws.free_others q (m.write q zeros h) r apart);
        }
