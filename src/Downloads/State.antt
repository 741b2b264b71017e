-- ===== src/Downloads/State.antt =====
-- src/tuntu/downloads/state.py. Times are points on one clock, as numbers.
pub mod Graph
use tuntu.Prelude.{
  ℕ, ◌≡◌, refl, ap, ◌↔◌, Bool, true, false, not, ◌&&◌, ◌||◌, Option, none, some, arith, leb, Eq,
  nat_eq, ◌==◌, if◌then◌else◌,
}
use tuntu.Errors.{Result, ok, err, invalid_transition}

pub data DownloadStatus : Type 0 where
  submitting submitted downloading completed failed attention_required : DownloadStatus

abbrev pub status_code : DownloadStatus → ℕ
status_code submitting = 0
status_code submitted = 1
status_code downloading = 2
status_code completed = 3
status_code failed = 4
status_code attention_required = 5

abbrev pub status_beq : DownloadStatus → DownloadStatus → Bool
status_beq a b = status_code a == status_code b

pub status_beq_iff : (a b : DownloadStatus) → (status_beq a b ≡ true) ↔ (a ≡ b)
status_beq_iff a b = (λ h. ground arith, λ h. ground arith)

instance abbrev pub status_eq : Eq DownloadStatus
status_eq = record { equal = status_beq; equal_iff = status_beq_iff }

-- `target in _ALLOWED[current]`
abbrev pub allowed : DownloadStatus → DownloadStatus → Bool
allowed submitting submitting = false
allowed submitting _ = true
allowed submitted downloading = true
allowed submitted completed = true
allowed submitted failed = true
allowed submitted attention_required = true
allowed submitted _ = false
allowed downloading completed = true
allowed downloading failed = true
allowed downloading attention_required = true
allowed downloading _ = false
allowed attention_required submitted = true
allowed attention_required downloading = true
allowed attention_required completed = true
allowed attention_required failed = true
allowed attention_required _ = false
allowed completed _ = false
allowed failed _ = false

-- `status in {COMPLETED, FAILED}`
abbrev pub is_terminal : DownloadStatus → Bool
is_terminal completed = true
is_terminal failed = true
is_terminal _ = false

-- `now >= attention_after`, false where either is `None`
abbrev pub is_due : Option ℕ → Option ℕ → Bool
is_due (some now) (some attention_after) = leb attention_after now
is_due _ _ = false

-- The first `if` of the function: no target, or evidence that cannot be relied on.
abbrev pub without_evidence : DownloadStatus → Option ℕ → Option ℕ → DownloadStatus
without_evidence current now attention_after =
    if is_due now attention_after && not (is_terminal current) then attention_required else current

unfoldable pub transition_status :
    (current : DownloadStatus) (target : Option DownloadStatus) (evidence_reliable : Bool)
    (now attention_after : Option ℕ)
    → Result DownloadStatus
transition_status current none evidence_reliable now attention_after =
    ok (without_evidence current now attention_after)
transition_status current (some target) false now attention_after =
    ok (without_evidence current now attention_after)
transition_status current (some target) true now attention_after =
    if target == current
    then ok current
    else if not (allowed current target)
    then err invalid_transition
    else ok target
