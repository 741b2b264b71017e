-- ===== src/Scheduler/Times.antt =====
-- src/tuntu/scheduler.py: `_parse_daily_time`.
use tuntu.Prelude.{
  ℕ, ◌+◌, ◌*◌, Option, none, some, [], ◌∷◌, Text, ltb, ◌==◌, ◌||◌, nat_eq, if◌then◌else◌,
}
use tuntu.Errors.{Result, ok, err, value_error}

-- The value of a character that `\d` matches and `int` reads.
abbrev pub Digits : Type 0
Digits = ℕ → Option ℕ

pub record Time : Type 0 where
  pub hour : ℕ
  pub minute : ℕ
  pub second : ℕ

abbrev colon : ℕ
colon = b':'

abbrev two_values : Option ℕ → Option ℕ → Option ℕ
two_values (some m) (some n) = some (10 * m + n)
two_values _ _ = none

module _ (digits : Digits) where
  -- `(\d{2})`, as a number
  abbrev number : ℕ → ℕ → Option ℕ
  number c d = two_values (digits c) (digits d)

  abbrev three_parts : Option ℕ → Option ℕ → Option ℕ → Option Time
  three_parts (some h) (some m) (some s) = some (record { hour = h; minute = m; second = s })
  three_parts _ _ _ = none

  -- `_DAILY_TIME.fullmatch(value)`, with the numbers of its groups; the seconds may be missing.
  abbrev matched : Text → Option Time
  matched (a ∷ b ∷ c ∷ d ∷ e ∷ []) =
      if c == colon then three_parts (number a b) (number d e) (some 0) else none
  matched (a ∷ b ∷ c ∷ d ∷ e ∷ f ∷ g ∷ h ∷ []) =
      if c == colon
      then (if f == colon then three_parts (number a b) (number d e) (number g h) else none)
      else none
  matched _ = none

  abbrev in_range : Option Time → Result Time
  in_range none = err value_error
  in_range (some t) =
      if ltb 23 t.hour || (ltb 59 t.minute || ltb 59 t.second) then err value_error else ok t

  -- `value or ""`
  abbrev or_empty : Option Text → Text
  or_empty none = []
  or_empty (some value) = value

  unfoldable pub parse_daily_time : Option Text → Result Time
  parse_daily_time value = in_range (matched (or_empty value))
