-- ===== src/Memory/Accounted.antt =====
-- Memory stays accounted for: each region in use has one owner.
use memseal.Prelude.{
  ℕ, ◌≡◌, ◌≢◌, refl, sym, ap, ◌∙◌, subst, Bool, true, false, false≢true, [], ◌∷◌, ◌==◌, ==_iff,
  if◌then◌else◌, arith, inl, inr, All,
}
use memseal.Bytes.{Bytes}
use memseal.Memory.{Memsec, Locked, drop_secret}
use memseal.Memory.Laws.{IsSameAt, IsMemsec}
use memseal.Memory.Secrets.{
  IsPlaced, IsUndisturbed, SecretResult, new_secret_lem, IsDropped, drop_secret_lem, same_or_other,
}
use memseal.Memory.Owners.{
  Holdings, owns, release, State, Step, created, refused, dropped, Reached, started, later, Guarded,
  Apart, IsAccounted,
}

owns-release :
    (q r : ℕ) (owned : Holdings)
    → Apart owned
    → owns r (release q owned) ≡ (if q == r then false else owns r owned)
owns-release q r [] h = ground arith
owns-release q r ((s, secret) ∷ owned) h =
    ground
      (arith, owns-release q r owned h.1, ==_iff s.region.ptr q, ==_iff s.region.ptr r, ==_iff q r)

release-Apart : (q : ℕ) (owned : Holdings) → Apart owned → Apart (release q owned)
release-Apart q [] h = tt
release-Apart q ((s, secret) ∷ owned) h =
    ground (arith, release-Apart q owned h.1, owns-release q s.region.ptr owned h.1)

module _ {M : Type 0} (m : Memsec M) where
  Guarded-same :
      (h h' : M) (s : Locked) (secret : Bytes)
      → IsSameAt m s.region.ptr h h'
      → Guarded m h (s, secret)
      → Guarded m h' (s, secret)
  Guarded-same h h' s secret same (live, locked, bytes) =
      (same.live ∙ live, same.locked ∙ locked, same.bytes ∙ bytes)

  All-Guarded-kept :
      (h h' : M) (owned : Holdings)
      → ((q : ℕ) → m.live h q ≡ true → IsSameAt m q h h')
      → All (Guarded m h) owned
      → All (Guarded m h') owned
  All-Guarded-kept h h' [] kept g = tt
  All-Guarded-kept h h' ((s, secret) ∷ owned) kept (g, gs) =
      (Guarded-same h h' s secret (kept s.region.ptr g.0) g, All-Guarded-kept h h' owned kept gs)

  All-Guarded-others :
      (q : ℕ) (h h' : M) (owned : Holdings)
      → ((r : ℕ) → r ≢ q → IsSameAt m r h h')
      → owns q owned ≡ false
      → All (Guarded m h) owned
      → All (Guarded m h') owned
  All-Guarded-others q h h' [] others apart g = tt
  All-Guarded-others q h h' ((s, secret) ∷ owned) others apart (g, gs) = (
    Guarded-same h h' s secret (others s.region.ptr differs) g,
    All-Guarded-others q h h' owned others rest gs,
  )
    where
      differs : s.region.ptr ≢ q
      differs same = ground (arith, ==_iff s.region.ptr q)

      rest : owns q owned ≡ false
      rest = ground arith

  release-Guarded :
      (q : ℕ) (h h' : M) (owned : Holdings)
      → ((r : ℕ) → r ≢ q → IsSameAt m r h h')
      → Apart owned
      → All (Guarded m h) owned
      → All (Guarded m h') (release q owned)
  release-Guarded q h h' [] others apart g = tt
  release-Guarded q h h' ((s, secret) ∷ owned) others (fresh, apart) (g, gs) =
      by_test (release-Guarded q h h' owned others apart gs) (s.region.ptr == q) refl
    where
      by_test :
          All (Guarded m h') (release q owned)
          → (b : Bool) → (s.region.ptr == q) ≡ b
          → All (Guarded m h') (if b then owned else (s, secret) ∷ release q owned)
      by_test rest true e =
          let same : s.region.ptr ≡ q = (==_iff s.region.ptr q).0 e in
          All-Guarded-others q h h' owned others (ap (λ r. owns r owned) (sym same) ∙ fresh) gs
      by_test rest false e = (
        Guarded-same h h' s secret
            (others s.region.ptr (λ same. ground (arith, ==_iff s.region.ptr q))) g,
        rest,
      )

  module _ (laws : IsMemsec m) (start : M) where
    created-IsAccounted :
        (secret : Bytes) (s : Locked) (h h' : M) (owned : Holdings)
        → IsPlaced m h h' s.region.ptr secret
        → IsAccounted m start (record { memory = h; owned = owned })
        → IsAccounted m start (record { memory = h'; owned = (s, secret) ∷ owned })
    created-IsAccounted secret s h h' owned d a =
        let q = s.region.ptr in
        record {
          guarded = (
            (d.live, d.locked, d.bytes),
            All-Guarded-kept h h' owned
                (λ r used.
                  d.others r
                    λ same. false≢true (sym d.was_free ∙ (ap (m.live h) (sym same) ∙ used)))
                a.guarded,
          );
          apart = (ground (arith, a.live q, d.was_free), a.apart);
          live = λ r. elim (same_or_other r q) [
            | inl same ↦ ap (m.live h') same ∙ (d.live ∙ ground (arith, ==_iff q r, same))
            | inr apart ↦ (d.others r apart).live ∙ ground (arith, ==_iff q r, a.live r)
          ];
          new = λ r owned_now. ground (arith, ==_iff q r, a.new r, a.live q, d.was_free);
        }

    refused-IsAccounted :
        (h h' : M) (owned : Holdings)
        → IsUndisturbed m h h'
        → IsAccounted m start (record { memory = h; owned = owned })
        → IsAccounted m start (record { memory = h'; owned = owned })
    refused-IsAccounted h h' owned d a = record {
      guarded = All-Guarded-kept h h' owned d.kept a.guarded;
      apart = a.apart;
      live = λ r. d.live r ∙ a.live r;
      new = a.new;
    }

    dropped-IsAccounted :
        (s : Locked) (h h' : M) (owned : Holdings)
        → owns s.region.ptr owned ≡ true
        → IsDropped m s h h'
        → IsAccounted m start (record { memory = h; owned = owned })
        → IsAccounted m start (record { memory = h'; owned = release s.region.ptr owned })
    dropped-IsAccounted s h h' owned held d a =
        let q = s.region.ptr in
        record {
          guarded = release-Guarded q h h' owned d.others a.apart a.guarded;
          apart = release-Apart q owned a.apart;
          live = λ r. elim (same_or_other r q) [
            | inl same ↦
                ap (m.live h') same
                ∙ (d.gone
                    ∙ ground (
                      arith,
                      same,
                      ==_iff q r,
                      owns-release q r owned a.apart,
                      a.new q held,
                      ap (m.live start) same,
                    ))
            | inr apart ↦
                (d.others r apart).live
                ∙ ground (arith, ==_iff q r, owns-release q r owned a.apart, a.live r)
          ];
          new = λ r held_now. ground (arith, owns-release q r owned a.apart, a.new r);
        }

    Step-IsAccounted : (t u : State m) → Step m t u → IsAccounted m start t → IsAccounted m start u
    Step-IsAccounted _ _ (created secret s h h' owned e) a =
        created-IsAccounted secret s h h' owned
          (subst (SecretResult m secret h) e (new_secret_lem m laws secret h)) a
    Step-IsAccounted _ _ (refused secret x h h' owned e) a =
        refused-IsAccounted h h' owned
          (subst (SecretResult m secret h) e (new_secret_lem m laws secret h)) a
    Step-IsAccounted _ _ (dropped s h owned held) a =
        dropped-IsAccounted s h (drop_secret m s h) owned held (drop_secret_lem m laws s h) a

    -- On a `memsec` that keeps its laws: after any sequence of `LockedSecret::new`, which may fail, and
    -- of drops of owned secrets, every owned secret is in use, locked and holds the bytes that it was
    -- made from, no two share a region, and every allocation in use has an owner or was in use at the
    -- start.
    pub Reached-IsAccounted : (t : State m) → Reached m start t → IsAccounted m start t
    Reached-IsAccounted _ started = record {
      guarded = tt;
      apart = tt;
      live = λ q. refl;
      new = λ q held. absurd (false≢true held);
    }
    Reached-IsAccounted _ (later s t before step) =
        Step-IsAccounted s t step (Reached-IsAccounted s before)
