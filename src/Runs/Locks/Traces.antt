-- ===== src/Runs/Locks/Traces.antt =====
-- Calls of `execute` on any threads. Each of the four operations on the locks is one step, and steps of
-- other calls can come between any two of them.
use tuntu.Prelude.{
  ℕ, zero, suc, ◌+◌, ◌≡◌, ◌↔◌, inl, inr, refl, sym, ap, ◌∙◌, subst, true, false, List, [], ◌∷◌,
  nat_eq, arith, Bool-cases, ltb,
}
use tuntu.Runs.Locks.{
  Locks, holds, without, acquire_profile, release_profile, slot_of, acquire_slot, release_slot,
}
use tuntu.Runs.Locks.Threads.{
  Phase, asking, refused, running, leaving, Thread, Becomes, Leaves, slots_of, in_progress,
  profiles_of, Apart, Becomes-profiles, Becomes-in_progress, Leaves-in_progress, Leaves-profiles,
  without-distinct, unheld,
}

-- The locks, and the calls that hold the lock of a profile.
pub record Pool : Type 0 where
  pub locks : Locks
  pub threads : List Thread

infix 20 ◌⟶◌
infix 20 ◌⟶*◌
pub data ◌⟶◌ : Pool → Pool → Type 0 where
  locks_profile :
      (p : ℕ) (l : Locks) (ts : List Thread)
      → (acquire_profile p l).0 ≡ true
      → record { locks = l; threads = ts } ⟶ record {
        locks = (acquire_profile p l).1;
        threads = record { profile = p; phase = asking } ∷ ts;
      }
  overlaps :
      (p : ℕ) (l : Locks) (ts : List Thread)
      → (acquire_profile p l).0 ≡ false
      → record { locks = l; threads = ts }
        ⟶ record { locks = (acquire_profile p l).1; threads = ts }
  takes_slot :
      (p : ℕ) (l : Locks) (ts us : List Thread)
      → (acquire_slot l).0 ≡ true
      → Becomes p asking running ts us
      → record { locks = l; threads = ts } ⟶ record { locks = (acquire_slot l).1; threads = us }
  finds_none :
      (p : ℕ) (l : Locks) (ts us : List Thread)
      → (acquire_slot l).0 ≡ false
      → Becomes p asking refused ts us
      → record { locks = l; threads = ts } ⟶ record { locks = (acquire_slot l).1; threads = us }
  gives_up :
      (p : ℕ) (l : Locks) (ts us : List Thread)
      → Leaves p refused ts us
      → record { locks = l; threads = ts } ⟶ record { locks = release_profile p l; threads = us }
  returns_slot :
      (p : ℕ) (l : Locks) (ts us : List Thread)
      → Becomes p running leaving ts us
      → record { locks = l; threads = ts } ⟶ record { locks = release_slot l; threads = us }
  unlocks :
      (p : ℕ) (l : Locks) (ts us : List Thread)
      → Leaves p leaving ts us
      → record { locks = l; threads = ts } ⟶ record { locks = release_profile p l; threads = us }

pub data ◌⟶*◌ : Pool → Pool → Type 0 where
  done : {s : Pool} → s ⟶* s
  onward : {s t u : Pool} → s ⟶* t → t ⟶ u → s ⟶* u

-- Each lock is held by one call, no profile has two, and of the slots each is free or with a call that
-- is running.
pub record IsFair (slots : ℕ) (s : Pool) : Type 0 where
  pub owned : s.locks.held ≡ profiles_of s.threads
  pub apart : Apart (profiles_of s.threads)
  pub accounted : in_progress s.threads + s.locks.free ≡ slots

slot_of-free :
    (held : List ℕ) (free : ℕ)
    → (slot_of held free).0 ≡ true
    → suc (slot_of held free).1.free ≡ free
slot_of-free held zero h = absurd (ground (arith, h))
slot_of-free held (suc free) h = refl

slot_of-none :
    (held : List ℕ) (free : ℕ) → (slot_of held free).0 ≡ false → (slot_of held free).1.free ≡ free
slot_of-none held zero h = refl
slot_of-none held (suc free) h = absurd (ground (arith, h))

slot_of-held : (held : List ℕ) (free : ℕ) → (slot_of held free).1.held ≡ held
slot_of-held held zero = refl
slot_of-held held (suc free) = refl

-- A step that keeps the locks of profiles.
moved :
    {slots : ℕ} {l m : Locks} {ts us : List Thread}
    → IsFair slots (record { locks = l; threads = ts })
    → m.held ≡ l.held
    → profiles_of us ≡ profiles_of ts
    → in_progress us + m.free ≡ in_progress ts + l.free
    → IsFair slots (record { locks = m; threads = us })
moved f same profiles count = record {
  owned = same ∙ f.owned ∙ sym profiles;
  apart = subst Apart (sym profiles) f.apart;
  accounted = count ∙ f.accounted;
}

-- A call that had no slot ends.
left :
    {slots p : ℕ} {a : Phase} {l : Locks} {ts us : List Thread}
    → IsFair slots (record { locks = l; threads = ts })
    → slots_of a ≡ 0
    → Leaves p a ts us
    → IsFair slots (record { locks = release_profile p l; threads = us })
unfolding release_profile
left {p = p} f none m =
    let rest = Leaves-profiles m f.apart in
    record {
      owned = ap (without p) f.owned ∙ rest;
      apart = subst Apart rest (without-distinct p _ f.apart);
      accounted = omega (arith, f.accounted, none, Leaves-in_progress m);
    }

⟶-IsFair : (slots : ℕ) {s t : Pool} → IsFair slots s → s ⟶ t → IsFair slots t
unfolding acquire_profile acquire_slot release_slot
⟶-IsFair slots f (locks_profile p l ts h) = elim (Bool-cases (holds p l.held)) [
  | inl held ↦ absurd (ground (arith, h, held))
  | inr free ↦ rw free (record {
    owned = ap (λ (ps : List ℕ). p ∷ ps) f.owned;
    apart = (
      unheld p (profiles_of ts) (subst (λ (ps : List ℕ). holds p ps ≡ false) f.owned free),
      f.apart,
    );
    accounted = omega (arith, f.accounted);
  })
]
⟶-IsFair slots f (overlaps p l ts h) = elim (Bool-cases (holds p l.held)) [
  | inl held ↦ rw held (record { owned = f.owned; apart = f.apart; accounted = f.accounted })
  | inr free ↦ absurd (ground (arith, h, free))
]
⟶-IsFair slots f (takes_slot p l ts us h m) =
    moved f (slot_of-held l.held l.free) (Becomes-profiles m)
      (omega (arith, slot_of-free l.held l.free h, Becomes-in_progress m))
⟶-IsFair slots f (finds_none p l ts us h m) =
    moved f (slot_of-held l.held l.free) (Becomes-profiles m)
      (omega (arith, slot_of-none l.held l.free h, Becomes-in_progress m))
⟶-IsFair slots f (gives_up p l ts us m) = left f refl m
⟶-IsFair slots f (returns_slot p l ts us m) =
    moved f refl (Becomes-profiles m) (omega (arith, Becomes-in_progress m))
⟶-IsFair slots f (unlocks p l ts us m) = left f refl m

⟶*-IsFair : (slots : ℕ) {s t : Pool} → IsFair slots s → s ⟶* t → IsFair slots t
⟶*-IsFair slots f done = f
⟶*-IsFair slots f (onward path last) = ⟶-IsFair slots (⟶*-IsFair slots f path) last

profile_free : (p : ℕ) (l : Locks) → ((acquire_profile p l).0 ≡ true) ↔ (holds p l.held ≡ false)
unfolding acquire_profile
profile_free p l = ground arith

slot_free : (l : Locks) → ((acquire_slot l).0 ≡ true) ↔ (ltb 0 l.free ≡ true)
unfolding acquire_slot
slot_free l = of_slot l.held l.free
  where
    of_slot : (held : List ℕ) (free : ℕ) → ((slot_of held free).0 ≡ true) ↔ (ltb 0 free ≡ true)
    of_slot held zero = ground arith
    of_slot held (suc free) = ground arith

-- From a service with all its slots free, after any interleaving of the steps of any calls: the locks
-- that are held are those of the calls between taking and releasing one, and no two of these are of
-- one profile; the calls that run and the free slots are together as many as the slots. The lock of a
-- profile can be taken exactly if no such call is of that profile, and a slot exactly if fewer calls
-- run than there are slots.
pub locks-IsFair :
    (slots : ℕ) (s : Pool) (p : ℕ)
    → record { locks = record { held = []; free = slots }; threads = [] } ⟶* s
    → IsFair slots s
      × (((acquire_profile p s.locks).0 ≡ true) ↔ (holds p (profiles_of s.threads) ≡ false))
      × (((acquire_slot s.locks).0 ≡ true) ↔ (ltb (in_progress s.threads) slots ≡ true))
locks-IsFair slots s p path =
    let fair =
      ⟶*-IsFair slots (record { owned = refl; apart = tt; accounted = omega arith }) path in
    (
      fair,
      subst (λ (ps : List ℕ). ((acquire_profile p s.locks).0 ≡ true) ↔ (holds p ps ≡ false))
          fair.owned (profile_free p s.locks),
      (
        λ h. let slot = (slot_free s.locks).0 h in ground (arith, slot, fair.accounted),
        λ h. (slot_free s.locks).1 (ground (arith, h, fair.accounted)),
      ),
    )
