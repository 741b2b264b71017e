-- ===== src/Runs/Locks/Threads.antt =====
-- The calls of `execute` that hold the lock of a profile, and how one of them moves on or ends.
use tuntu.Prelude.{
  ℕ, ◌+◌, ◌≡◌, inl, inr, refl, ap, false, List, [], ◌∷◌, map, All, Pairwise, ◌==◌, nat_eq, arith,
  Bool-cases, beq_comm, beq_self,
}
use tuntu.Runs.Locks.{holds, without}
use tuntu.Runs.Locks.Single.{without-absent}

-- Where a call is that holds the lock of its profile: before it asks for a slot, after it was refused
-- one, with one, and after it gave it back.
pub data Phase : Type 0 where
  asking refused running leaving : Phase

pub record Thread : Type 0 where
  pub profile : ℕ
  pub phase : Phase

-- A thread comes to another phase; a thread ends.
pub data Becomes (p : ℕ) (a b : Phase) : List Thread → List Thread → Type 0 where
  here :
      (ts : List Thread)
      → Becomes p a b
          (record { profile = p; phase = a } ∷ ts)
          (record { profile = p; phase = b } ∷ ts)
  there : (t : Thread) (ts us : List Thread) → Becomes p a b ts us → Becomes p a b (t ∷ ts) (t ∷ us)

pub data Leaves (p : ℕ) (a : Phase) : List Thread → List Thread → Type 0 where
  gone : (ts : List Thread) → Leaves p a (record { profile = p; phase = a } ∷ ts) ts
  later : (t : Thread) (ts us : List Thread) → Leaves p a ts us → Leaves p a (t ∷ ts) (t ∷ us)

-- Only a call that is running has a slot.
abbrev pub slots_of : Phase → ℕ
slots_of asking = 0
slots_of refused = 0
slots_of running = 1
slots_of leaving = 0

abbrev pub in_progress : List Thread → ℕ
in_progress [] = 0
in_progress (t ∷ ts) = slots_of t.phase + in_progress ts

abbrev pub profiles_of : List Thread → List ℕ
profiles_of = map (λ (t : Thread). t.profile)

abbrev pub Apart : List ℕ → Type 0
Apart = Pairwise (λ (p : ℕ) (q : ℕ). (p == q) ≡ false)

pub Becomes-profiles :
    {p : ℕ} {a b : Phase} {ts us : List Thread}
    → Becomes p a b ts us
    → profiles_of us ≡ profiles_of ts
Becomes-profiles (here ts) = refl
Becomes-profiles (there t ts us m) = ap (λ (ps : List ℕ). t.profile ∷ ps) (Becomes-profiles m)

pub Becomes-in_progress :
    {p : ℕ} {a b : Phase} {ts us : List Thread}
    → Becomes p a b ts us
    → in_progress us + slots_of a ≡ in_progress ts + slots_of b
Becomes-in_progress {a = a} {b = b} (here ts) = omega arith
Becomes-in_progress (there t ts us m) = omega (arith, Becomes-in_progress m)

pub Leaves-in_progress :
    {p : ℕ} {a : Phase} {ts us : List Thread}
    → Leaves p a ts us
    → in_progress ts ≡ slots_of a + in_progress us
Leaves-in_progress (gone ts) = refl
Leaves-in_progress (later t ts us m) = omega (arith, Leaves-in_progress m)

Leaves-other :
    (q : ℕ) {p : ℕ} {a : Phase} {ts us : List Thread}
    → Leaves p a ts us
    → All (λ (r : ℕ). (q == r) ≡ false) (profiles_of ts)
    → (q == p) ≡ false
Leaves-other q (gone ts) h = h.0
Leaves-other q (later t ts us m) h = Leaves-other q m h.1

pub unheld : (p : ℕ) (held : List ℕ) → holds p held ≡ false → All (λ (q : ℕ). (p == q) ≡ false) held
unheld p [] h = tt
unheld p (q ∷ held) h = (ground (arith, h, beq_comm p q), unheld p held (ground (arith, h)))

held_not : (p : ℕ) (held : List ℕ) → All (λ (q : ℕ). (p == q) ≡ false) held → holds p held ≡ false
held_not p [] h = refl
held_not p (q ∷ held) h = ground (arith, h.0, beq_comm p q, held_not p held h.1)

-- The lock that is released is the one of the call that ends.
pub Leaves-profiles :
    {p : ℕ} {a : Phase} {ts us : List Thread}
    → Leaves p a ts us
    → Apart (profiles_of ts)
    → without p (profiles_of ts) ≡ profiles_of us
Leaves-profiles {p = p} (gone ts) s =
    rw (beq_self p) (without-absent p (profiles_of ts) (held_not p (profiles_of ts) s.0))
Leaves-profiles (later t ts us m) s =
    rw (Leaves-other t.profile m s.0) (ap (λ (ps : List ℕ). t.profile ∷ ps) (Leaves-profiles m s.1))

without-All : (R : ℕ → Type 0) (p : ℕ) (held : List ℕ) → All R held → All R (without p held)
without-All R p [] h = tt
without-All R p (q ∷ held) h = elim (Bool-cases (q == p)) [
  | inl same ↦ rw same (without-All R p held h.1)
  | inr apart ↦ rw apart (h.0, without-All R p held h.1)
]

pub without-distinct :
    (p : ℕ) (held : List ℕ)
    → Pairwise (λ (p : ℕ) (q : ℕ). (p == q) ≡ false) held
    → Pairwise (λ (p : ℕ) (q : ℕ). (p == q) ≡ false) (without p held)
without-distinct p [] s = tt
without-distinct p (q ∷ held) s = elim (Bool-cases (q == p)) [
  | inl same ↦ rw same (without-distinct p held s.1)
  | inr apart ↦
      rw apart (without-All (λ (r : ℕ). (q == r) ≡ false) p held s.0, without-distinct p held s.1)
]
