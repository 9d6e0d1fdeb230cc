-- ===== src/Memory/Owners.antt =====
-- Every sequence of `LockedSecret::new` and drops of src/mem/locked_secret.rs, as a program that owns
-- each secret until it drops it.
use memseal.Prelude.{ℕ, ◌≡◌, Bool, true, false, some, List, [], ◌∷◌, ◌==◌, ◌||◌, if◌then◌else◌, All}
use memseal.Bytes.{Bytes}
use memseal.Errors.{ok, err, LockedSecretError}
use memseal.Memory.{Memsec, Locked, new_secret, with_bytes, drop_secret}

-- The secrets that the program owns, each with the bytes that it was made from.
abbrev pub Holdings : Type 0
Holdings = List (Locked × Bytes)

-- Is this the pointer of an owned secret?
abbrev pub owns : ℕ → Holdings → Bool
owns q [] = false
owns q ((s, secret) ∷ owned) = s.region.ptr == q || owns q owned

-- What is owned after the secret behind the pointer is given up.
abbrev pub release : ℕ → Holdings → Holdings
release q [] = []
release q ((s, secret) ∷ owned) = if s.region.ptr == q then owned else (s, secret) ∷ release q owned

-- No two share a region.
abbrev pub Apart : Holdings → Type 0
Apart [] = Unit {0}
Apart ((s, secret) ∷ owned) = (owns s.region.ptr owned ≡ false) × Apart owned

module _ {M : Type 0} (m : Memsec M) where
  pub record State : Type 0 where
    pub memory : M
    pub owned : Holdings

  pub data Step : State → State → Type 0 where
    created :
        (secret : Bytes) (s : Locked) (h h' : M) (owned : Holdings)
        → new_secret m secret h ≡ some (ok s, h')
        → Step
            (record { memory = h; owned = owned })
            (record { memory = h'; owned = (s, secret) ∷ owned })
    refused :
        (secret : Bytes) (e : LockedSecretError) (h h' : M) (owned : Holdings)
        → new_secret m secret h ≡ some (err e, h')
        → Step (record { memory = h; owned = owned }) (record { memory = h'; owned = owned })
    dropped :
        (s : Locked) (h : M) (owned : Holdings)
        → owns s.region.ptr owned ≡ true
        → Step
            (record { memory = h; owned = owned })
            (record { memory = drop_secret m s h; owned = release s.region.ptr owned })

  -- The states that a program reaches from memory in which it owns no secret.
  pub data Reached (start : M) : State → Type 0 where
    started : Reached start (record { memory = start; owned = [] })
    later : (s t : State) → Reached start s → Step s t → Reached start t

  -- Each owned secret is in use, locked, and holds its bytes.
  abbrev pub Guarded : M → Locked × Bytes → Type 0
  Guarded h (s, secret) =
      (m.live h s.region.ptr ≡ true)
      × (m.locked h s.region.ptr ≡ true)
      × (with_bytes m s (λ b. b) h ≡ secret)

  pub record IsAccounted (start : M) (t : State) : Type 0 where
    pub guarded : All (Guarded t.memory) t.owned
    pub apart : Apart t.owned
    -- What is in use is owned, or was in use at the start, and not both.
    pub live : (q : ℕ) → m.live t.memory q ≡ (owns q t.owned || m.live start q)
    pub new : (q : ℕ) → owns q t.owned ≡ true → m.live start q ≡ false
