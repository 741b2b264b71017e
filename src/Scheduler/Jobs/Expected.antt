-- ===== src/Scheduler/Jobs/Expected.antt =====
-- The jobs that rows ask for, and the sets of ids that a sync keeps.
use tuntu.Prelude.{
  ℕ, ◌≡◌, refl, sym, ap, ◌∙◌, inl, inr, Bool, true, false, not, ◌&&◌, ◌||◌, Option, none, some,
  List, [], ◌∷◌, contains, is_some, Text, ◌==◌, nat_eq, string_eq, pair_eq, Bool-cases,
  if◌then◌else◌,
}
use tuntu.Errors.{Result, ok, err}
use tuntu.Scheduler.Times.{Digits, Time, parse_daily_time}
use tuntu.Scheduler.Jobs.{Trigger, daily, add_id, difference}

abbrev pub or_else : {A : Type 0} → Option A → Option A → Option A
or_else (some a) b = some a
or_else none b = b

pub or_else_assoc :
    {A : Type 0} (a b c : Option A) → or_else a (or_else b c) ≡ or_else (or_else a b) c
or_else_assoc (some a) b c = refl
or_else_assoc none b c = refl

pub is_some-or_else :
    {A : Type 0} (a b : Option A) → is_some (or_else a b) ≡ (is_some a || is_some b)
is_some-or_else (some a) b = refl
is_some-or_else none b = refl

module _ (digits : Digits) (timezone : Text) where
  -- What a row asks for.
  abbrev pub asked : ℕ → Result Time → ℕ → Option Trigger
  asked j (err e) i = none
  asked j (ok time) i = if j == i then some (daily time timezone) else none

  -- The trigger that the rows ask for; a row whose time is invalid asks for none.
  unfoldable pub expected : List (ℕ × Option Text) → ℕ → Option Trigger
  expected [] i = none
  expected ((j, time) ∷ rows) i =
      or_else (expected rows i) (asked j (parse_daily_time digits time) i)

pub contains-add_id :
    (i j : ℕ) (ids : List ℕ) → contains i (add_id j ids) ≡ (j == i || contains i ids)
contains-add_id i j ids = elim (Bool-cases (contains j ids)) [
  | inr new ↦ rw new refl
  | inl there ↦ rw there (elim (Bool-cases (j == i)) [
    | inr apart ↦ rw apart refl
    | inl same ↦ rw same (ap (λ k. contains k ids) (sym ((nat_eq.equal_iff j i).0 same)) ∙ there)
  ])
]

pub contains-difference :
    (i : ℕ) (ids others : List ℕ)
    → contains i (difference ids others) ≡ (contains i ids && not (contains i others))
contains-difference i [] others = refl
contains-difference i (j ∷ ids) others = elim (Bool-cases (j == i)) [
  | inr apart ↦ elim (Bool-cases (contains j others)) [
    | inl there ↦ rw (there, apart) (contains-difference i ids others)
    | inr new ↦ rw (new, apart) (contains-difference i ids others)
  ]
  | inl same ↦
      let equal = ap (λ k. contains k others) ((nat_eq.equal_iff j i).0 same) in
      elim (Bool-cases (contains j others)) [
        | inl there ↦
            let too : contains i others ≡ true = sym equal ∙ there in
            rw (there, same, too)
              (contains-difference i ids others ∙ rw too (and_false (contains i ids)))
        | inr new ↦
            let too : contains i others ≡ false = sym equal ∙ new in rw (new, same, too) refl
      ]
]
  where
    and_false : (b : Bool) → (b && false) ≡ false
    and_false true = refl
    and_false false = refl
