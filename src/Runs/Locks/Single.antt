-- ===== src/Runs/Locks/Single.antt =====
-- The locks around one call that no other call interrupts.
use tuntu.Prelude.{ℕ, zero, suc, ◌≡◌, refl, ap, true, false, List, [], ◌∷◌, nat_eq, arith, beq_self}
use tuntu.Runs.Locks.{
  Locks, holds, without, admitted, profile_overlap, global_concurrency_limit, acquire_profile,
  release_profile, acquire_slot, release_slot, after_slot, after_profile, acquire, release,
}

pub without-absent : (p : ℕ) (held : List ℕ) → holds p held ≡ false → without p held ≡ held
without-absent p [] h = refl
without-absent p (q ∷ held) h = ground (arith, h, without-absent p held)

without_own :
    (p : ℕ) (held : List ℕ) (free : ℕ)
    → holds p held ≡ false
    → ◌≡◌ {A = Locks}
        (record { held = without p (p ∷ held); free = free })
        (record { held = held; free = free })
without_own p held free h =
    rw (beq_self p)
      (ap (λ (ps : List ℕ). record { held = ps; free = free }) (without-absent p held h))

-- The three outcomes. A call that is refused leaves the locks as they were.
pub acquire_overlap :
    (p : ℕ) (held : List ℕ) (free : ℕ)
    → holds p held ≡ true
    → acquire p (record { held = held; free = free })
      ≡ (profile_overlap, record { held = held; free = free })
unfolding acquire acquire_profile after_profile
acquire_overlap p held free h = rw h refl

pub acquire_full :
    (p : ℕ) (held : List ℕ)
    → holds p held ≡ false
    → acquire p (record { held = held; free = zero })
      ≡ (global_concurrency_limit, record { held = held; free = zero })
unfolding acquire acquire_profile after_profile acquire_slot after_slot release_profile
acquire_full p held h =
    rw h (ap (λ (l : Locks). (global_concurrency_limit, l)) (without_own p held zero h))

pub acquire_given :
    (p : ℕ) (held : List ℕ) (free : ℕ)
    → holds p held ≡ false
    → acquire p (record { held = held; free = suc free })
      ≡ (admitted, record { held = p ∷ held; free = free })
unfolding acquire acquire_profile after_profile acquire_slot after_slot
acquire_given p held free h = rw h refl

-- Releasing what was acquired leaves the locks as they were.
pub release_own :
    (p : ℕ) (held : List ℕ) (free : ℕ)
    → holds p held ≡ false
    → release p (record { held = p ∷ held; free = free }) ≡ record { held = held; free = suc free }
unfolding release release_slot release_profile
release_own p held free h = without_own p held (suc free) h
