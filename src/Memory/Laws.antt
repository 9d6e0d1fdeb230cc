-- ===== src/Memory/Laws.antt =====
-- What src/mem/locked_secret.rs relies on from `memsec`.
use memseal.Prelude.{ℕ, ◌≡◌, ◌≢◌, true, false, none, some, length}
use memseal.Bytes.{Bytes}
use memseal.Memory.{Memsec}

module _ {M : Type 0} (m : Memsec M) where
  -- Behind the pointer nothing has changed.
  pub record IsSameAt (q : ℕ) (h h' : M) : Type 0 where
    pub live : m.live h' q ≡ m.live h q
    pub locked : m.locked h' q ≡ m.locked h q
    pub bytes : m.bytes h' q ≡ m.bytes h q

  pub record IsMemsec : Type 0 where
    -- A new allocation is one that was not in use, of the length asked for; it disturbs no other.
    pub malloc_new :
        (n q : ℕ) (h h' : M)
        → m.malloc_sized n h ≡ (some q, h')
        → (m.live h q ≡ false) × (m.live h' q ≡ true) × (length (m.bytes h' q) ≡ n)
    pub malloc_others :
        (n q : ℕ) (h h' : M) → m.malloc_sized n h ≡ (some q, h') → (r : ℕ) → r ≢ q → IsSameAt r h h'
    pub malloc_none :
        (n : ℕ) (h h' : M) → m.malloc_sized n h ≡ (none, h') → (r : ℕ) → IsSameAt r h h'
    -- `mlock` says whether the pages are locked, and changes nothing else.
    pub mlock_locks : (q n : ℕ) (h h' : M) → m.mlock q n h ≡ (true, h') → m.locked h' q ≡ true
    pub mlock_keeps :
        (q n : ℕ) (h : M)
        → (m.live (m.mlock q n h).1 q ≡ m.live h q) × (m.bytes (m.mlock q n h).1 q ≡ m.bytes h q)
    pub mlock_others : (q n : ℕ) (h : M) (r : ℕ) → r ≢ q → IsSameAt r h (m.mlock q n h).1
    -- `free` releases one allocation; pages are not shared, so no other one is unlocked.
    pub free_gone : (q : ℕ) (h : M) → m.live (m.free q h) q ≡ false
    pub free_others : (q : ℕ) (h : M) (r : ℕ) → r ≢ q → IsSameAt r h (m.free q h)
    -- A write of as many bytes as there are.
    pub write_bytes :
        (q : ℕ) (b : Bytes) (h : M)
        → length b ≡ length (m.bytes h q)
        → m.bytes (m.write q b h) q ≡ b
    pub write_keeps :
        (q : ℕ) (b : Bytes) (h : M)
        → (m.live (m.write q b h) q ≡ m.live h q) × (m.locked (m.write q b h) q ≡ m.locked h q)
    pub write_others : (q : ℕ) (b : Bytes) (h : M) (r : ℕ) → r ≢ q → IsSameAt r h (m.write q b h)
