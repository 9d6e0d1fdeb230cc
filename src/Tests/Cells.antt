-- ===== src/Tests/Cells.antt =====
-- A small memory that keeps the laws of `memsec`.
use memseal.Prelude.{
  ℕ, zero, suc, ◌≡◌, ◌≢◌, refl, sym, ap, ap₂, ◌∙◌, Bool, true, false, false≢true, ◌&&◌, Option,
  none, some, List, [], ◌∷◌, ◌++◌, length, replicate, leb, if◌then◌else◌, arith, ◌⊎◌, inl, inr,
  length-replicate,
}
use memseal.Bytes.{Bytes}
use memseal.Memory.{Memsec}
use memseal.Memory.Laws.{IsSameAt, IsMemsec}

pub record Cell : Type 0 where
  pub live : Bool
  pub locked : Bool
  pub bytes : Bytes

abbrev pub Cells : Type 0
Cells = List Cell

abbrev unused : Cell
unused = record { live = false; locked = false; bytes = [] }

abbrev pub at : ℕ → Cells → Cell
at q [] = unused
at zero (c ∷ h) = c
at (suc q) (c ∷ h) = at q h

abbrev adjust : (Cell → Cell) → ℕ → Cells → Cells
adjust f q [] = []
adjust f zero (c ∷ h) = f c ∷ h
adjust f (suc q) (c ∷ h) = c ∷ adjust f q h

abbrev new_cell : ℕ → Cell
new_cell n = record { live = true; locked = false; bytes = replicate n 219 }

abbrev lock_cell : Cell → Cell
lock_cell c = record c { locked = true }

abbrev free_cell : Cell → Cell
free_cell c = record c { live = false; locked = false }

-- New bytes hold a pattern. There is room for three allocations, and a lock takes at most 64 bytes.
abbrev toy_malloc : ℕ → Cells → Option ℕ × Cells
toy_malloc n h = if leb 3 (length h) then (none, h) else (some (length h), h ++ new_cell n ∷ [])

abbrev toy_mlock : ℕ → ℕ → Cells → Bool × Cells
toy_mlock q n h = if (at q h).live && leb n 64 then (true, adjust lock_cell q h) else (false, h)

abbrev pub cells : Memsec Cells
cells = record {
  malloc_sized = toy_malloc;
  mlock = toy_mlock;
  free = adjust free_cell;
  live = λ h q. (at q h).live;
  locked = λ h q. (at q h).locked;
  bytes = λ h q. (at q h).bytes;
  write = λ q b. adjust (λ c. record c { bytes = b }) q;
}

at_adjust_other : (f : Cell → Cell) (q r : ℕ) (h : Cells) → r ≢ q → at r (adjust f q h) ≡ at r h
at_adjust_other f q r [] apart = refl
at_adjust_other f zero zero (c ∷ h) apart = absurd (apart refl)
at_adjust_other f zero (suc r) (c ∷ h) apart = refl
at_adjust_other f (suc q) zero (c ∷ h) apart = refl
at_adjust_other f (suc q) (suc r) (c ∷ h) apart =
    at_adjust_other f q r h λ same. apart (ap suc same)

-- The cell is adjusted, or it is outside.
at_adjust :
    (f : Cell → Cell) (q : ℕ) (h : Cells)
    → (at q (adjust f q h) ≡ f (at q h)) ⊎ ((at q h ≡ unused) × (at q (adjust f q h) ≡ unused))
at_adjust f q [] = inr (refl, refl)
at_adjust f zero (c ∷ h) = inl refl
at_adjust f (suc q) (c ∷ h) = at_adjust f q h

at-append_new : (h : Cells) (c : Cell) → at (length h) (h ++ c ∷ []) ≡ c
at-append_new [] c = refl
at-append_new (d ∷ h) c = at-append_new h c

at_length : (h : Cells) → at (length h) h ≡ unused
at_length [] = refl
at_length (d ∷ h) = at_length h

at-append_other : (h : Cells) (c : Cell) (r : ℕ) → r ≢ length h → at r (h ++ c ∷ []) ≡ at r h
at-append_other [] c zero apart = absurd (apart refl)
at-append_other [] c (suc r) apart = refl
at-append_other (d ∷ h) c zero apart = refl
at-append_other (d ∷ h) c (suc r) apart = at-append_other h c r λ same. apart (ap suc same)

IsSameAt-at : (r : ℕ) (h h' : Cells) → at r h' ≡ at r h → IsSameAt cells r h h'
IsSameAt-at r h h' same = record {
  live = ap (λ c. c.live) same;
  locked = ap (λ c. c.locked) same;
  bytes = ap (λ c. c.bytes) same;
}

malloc_some :
    (n q : ℕ) (h h' : Cells)
    → toy_malloc n h ≡ (some q, h')
    → (q ≡ length h) × (h' ≡ h ++ new_cell n ∷ [])
malloc_some n q h h' e = by_room (leb 3 (length h)) e
  where
    by_room :
        (b : Bool)
        → ◌≡◌ {A = Option ℕ × Cells}
            (if b then (none, h) else (some (length h), h ++ new_cell n ∷ []))
            (some q, h')
        → (q ≡ length h) × (h' ≡ h ++ new_cell n ∷ [])
    by_room true f = cc
    by_room false f = (cc, cc)

malloc_none : (n : ℕ) (h h' : Cells) → toy_malloc n h ≡ (none, h') → h' ≡ h
malloc_none n h h' e = ground arith

-- A part of the cell that the adjustment does not touch.
part_adjust :
    {X : Type 0} (f : Cell → Cell) (part : Cell → X) (q : ℕ) (h : Cells)
    → ((c : Cell) → part (f c) ≡ part c)
    → part (at q (adjust f q h)) ≡ part (at q h)
part_adjust f part q h same = elim (at_adjust f q h) [
  | inl e ↦ ap part e ∙ same (at q h)
  | inr (e, g) ↦ ap part g ∙ sym (ap part e)
]

-- A property of both ends of `mlock`.
mlock_by :
    (P : Bool × Cells → Type 0) (q n : ℕ) (h : Cells)
    → ((at q h).live ≡ true → P (true, adjust lock_cell q h))
    → P (false, h)
    → P (toy_mlock q n h)
mlock_by P q n h good bad = by_tests (at q h).live (leb n 64) refl
  where
    by_tests :
        (b c : Bool)
        → (at q h).live ≡ b
        → P (if b && c then (true, adjust lock_cell q h) else (false, h))
    by_tests true true e = good e
    by_tests true false e = bad
    by_tests false c e = bad

mlock_locks : (q n : ℕ) (h h' : Cells) → toy_mlock q n h ≡ (true, h') → (at q h').locked ≡ true
mlock_locks q n h h' e =
    mlock_by (λ r. r ≡ (true, h') → (at q h').locked ≡ true) q n h
      (λ live f.
        ap (λ (r : Bool × Cells). (at q r.1).locked) (sym f) ∙ elim (at_adjust lock_cell q h) [
          | inl g ↦ ap (λ c. c.locked) g
          | inr (g, _) ↦ absurd (false≢true (sym (ap (λ c. c.live) g) ∙ live))
        ])
      (λ f. absurd (false≢true (ap (λ r. r.0) f))) e

write_bytes :
    (q : ℕ) (b : Bytes) (h : Cells)
    → length b ≡ length (at q h).bytes
    → (at q (adjust (λ c. record c { bytes = b }) q h)).bytes ≡ b
write_bytes q b h long = elim (at_adjust (λ c. record c { bytes = b }) q h) [
  | inl e ↦ ap (λ c. c.bytes) e
  | inr (e, g) ↦ ap (λ c. c.bytes) g ∙ none_left b (long ∙ ap (λ c. length c.bytes) e)
]
  where
    none_left : (b : Bytes) → length b ≡ 0 → [] ≡ b
    none_left [] h = refl
    none_left (x ∷ b) h = absurd (omega arith)

free_gone : (q : ℕ) (h : Cells) → (at q (adjust free_cell q h)).live ≡ false
free_gone q h = elim (at_adjust free_cell q h) [
  | inl e ↦ ap (λ c. c.live) e
  | inr (_, g) ↦ ap (λ c. c.live) g
]

pub cells-IsMemsec : IsMemsec cells
cells-IsMemsec = record {
  malloc_new = λ n q h h' e.
      let (at_end, grown) = malloc_some n q h h' e in
      let placed : at q h' ≡ new_cell n = ap₂ at at_end grown ∙ at-append_new h (new_cell n) in
      (
        ap (λ r. (at r h).live) at_end ∙ ap (λ c. c.live) (at_length h),
        ap (λ c. c.live) placed,
        ap (λ c. length c.bytes) placed ∙ length-replicate n 219,
      );
  malloc_others = λ n q h h' e r apart.
      let (at_end, grown) = malloc_some n q h h' e in
      IsSameAt-at r h h'
        (ap (at r) grown ∙ at-append_other h (new_cell n) r (λ same. apart (same ∙ sym at_end)));
  malloc_none = λ n h h' e r. IsSameAt-at r h h' (ap (at r) (malloc_none n h h' e));
  mlock_locks = mlock_locks;
  mlock_keeps = λ q n h.
      mlock_by (λ r. ((at q r.1).live ≡ (at q h).live) × ((at q r.1).bytes ≡ (at q h).bytes)) q n h
        (λ live. (
          part_adjust lock_cell (λ c. c.live) q h (λ c. refl),
          part_adjust lock_cell (λ c. c.bytes) q h (λ c. refl),
        ))
        (refl, refl);
  mlock_others = λ q n h r apart.
      mlock_by (λ x. IsSameAt cells r h x.1) q n h
        (λ live. IsSameAt-at r h _ (at_adjust_other lock_cell q r h apart))
        (IsSameAt-at r h h refl);
  free_gone = free_gone;
  free_others = λ q h r apart. IsSameAt-at r h _ (at_adjust_other free_cell q r h apart);
  write_bytes = write_bytes;
  write_keeps = λ q b h. (
    part_adjust (λ c. record c { bytes = b }) (λ c. c.live) q h (λ c. refl),
    part_adjust (λ c. record c { bytes = b }) (λ c. c.locked) q h (λ c. refl),
  );
  write_others = λ q b h r apart.
      IsSameAt-at r h _ (at_adjust_other (λ c. record c { bytes = b }) q r h apart);
}
