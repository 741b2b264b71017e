-- ===== src/Errors.antt =====
-- The exceptions that the modelled code raises, as values.
use tuntu.Prelude.{◌≡◌, refl, ap, subst, ◌⊎◌, inl, inr}

pub data Error : Type 0 where
  key_error value_error invalid_transition confirmation_required : Error
  idempotency_conflict destination_busy integrity_error run_already_active : Error
  invalid_magnet invalid_path invalid_profile_subdir : Error
  cloud_drive_error attribute_error : Error

-- What a call gives: the value that it returns, or the exception that it raises.
pub data Result {ℓ} (V : Type ℓ) : Type ℓ where
  ok : (value : V) → Result V
  err : (raised : Error) → Result V

-- A raise ends the computation.
infixl 5 ◌>>=◌
abbrev pub ◌>>=◌ {ℓ κ} : {V : Type ℓ} {W : Type κ} → Result V → (V → Result W) → Result W
err raised >>= next = err raised
ok value >>= next = next value

-- A result that is there came through every step.
pub >>=-eq-ok {ℓ κ} :
    {V : Type ℓ} {W : Type κ} (r : Result V) (next : V → Result W) {w : W}
    → (r >>= next) ≡ ok w
    → (v : V) × (r ≡ ok v) × (next v ≡ ok w)
>>=-eq-ok (err raised) next h = absurd (cc)
>>=-eq-ok (ok value) next h = (value, refl, h)

-- An error came from one of the steps.
pub >>=-eq-err {ℓ κ} :
    {V : Type ℓ} {W : Type κ} (r : Result V) (next : V → Result W) {e : Error}
    → (r >>= next) ≡ err e
    → (r ≡ err e) ⊎ ((v : V) × (r ≡ ok v) × (next v ≡ err e))
>>=-eq-err (err raised) next h =
    inl (ap (λ (x : Result _). elim x [ ok _ ↦ err raised | err c ↦ err c ]) h)
>>=-eq-err (ok value) next h = inr (value, refl, h)

-- Of a value that was returned. An error promises nothing.
abbrev pub OnOk {ℓ} : {V : Type ℓ} → (V → Type 0) → Result V → Type 0
OnOk P (ok value) = P value
OnOk P (err raised) = Unit {0}

pub OnOk->>= {ℓ κ} :
    {V : Type ℓ} {W : Type κ} (P : V → Type 0) (Q : W → Type 0) (r : Result V) (next : V → Result W)
    → OnOk P r
    → ((value : V) → P value → OnOk Q (next value))
    → OnOk Q (r >>= next)
OnOk->>= P Q (ok value) next h k = k value h
OnOk->>= P Q (err raised) next h k = tt

pub OnOk-ok {ℓ} : {V : Type ℓ} (P : V → Type 0) (r : Result V) {v : V} → OnOk P r → r ≡ ok v → P v
OnOk-ok P (ok value) {v = v} h e = let same : value ≡ v = cc in subst P same h
OnOk-ok P (err raised) h e = absurd (cc)

-- What holds of every value that there may be.
pub OnOk-all {ℓ} : {V : Type ℓ} (P : V → Type 0) (r : Result V) → ((v : V) → P v) → OnOk P r
OnOk-all P (ok value) all = all value
OnOk-all P (err raised) all = tt
