-- ===== src/Downloaders/Client.antt =====
-- src/tuntu/contracts.py and the error classes of src/tuntu/downloaders/clouddrive.py: what the
-- download service sees of a download client.
use tuntu.Prelude.{ℕ, String, Option, none, some, Text, ◌≡◌, ◌≢◌, refl, ◌⊎◌, inl, inr}
use tuntu.Downloaders.Snapshot.{DirectorySnapshot}

-- `CloudDriveError` and its subclasses, as far as the service tells them apart. Each has a code.
pub data ClientError : Type 0 where
  result_unknown : String → Option DirectorySnapshot → ClientError
  external_task_already_exists rejected other : String → ClientError

abbrev pub error_code : ClientError → String
error_code (result_unknown code baseline) = code
error_code (external_task_already_exists code) = code
error_code (rejected code) = code
error_code (other code) = code

pub data Reply {ℓ} (A : Type ℓ) : Type ℓ where
  answers : A → Reply A
  raises : ClientError → Reply A

pub record SubmitResult : Type 0 where
  pub btih : Text
  pub destination : Text
  pub baseline : DirectorySnapshot

pub data TaskSignal : Type 0 where
  init downloading finished error unknown : TaskSignal

-- How the client answers during one call of the service. The service makes each of these calls at
-- most once, so a function of the arguments leaves the outside world free to answer anything.
pub record Client : Type 0 where
  pub attention_after_seconds : ℕ
  pub required_stable_observations : ℕ
  pub ensure_destination : Text → Reply (Unit {0})
  pub submit : Text → Text → Reply SubmitResult
  pub get_task_signal : Text → Text → Reply TaskSignal
  pub snapshot : Text → Reply DirectorySnapshot

-- Each call begins with `_normalize_absolute_path`, which refuses `None`.
abbrev pub with_path {ℓ} : {A : Type ℓ} → Option Text → (Text → Reply A) → Reply A
with_path none call = raises (other "invalid_path")
with_path (some path) call = call path

abbrev pub and_then {ℓ κ} : {A : Type ℓ} {B : Type κ} → Reply A → Reply B → Reply B
and_then (answers a) next = next
and_then (raises e) next = raises e

-- What a client raises ends the call.
infixl 5 ◌>>=◌
abbrev pub ◌>>=◌ {ℓ κ} : {A : Type ℓ} {B : Type κ} → Reply A → (A → Reply B) → Reply B
raises e >>= next = raises e
answers a >>= next = next a

-- An answer that is there came through every step.
pub >>=-eq-answers {ℓ κ} :
    {A : Type ℓ} {B : Type κ} (m : Reply A) (next : A → Reply B) {b : B}
    → (m >>= next) ≡ answers b
    → (a : A) × (m ≡ answers a) × (next a ≡ answers b)
>>=-eq-answers (raises e) next h = absurd (cc)
>>=-eq-answers (answers a) next h = (a, refl, h)

pub answers_injective {ℓ} : {A : Type ℓ} (a b : A) → answers a ≡ answers b → a ≡ b
answers_injective a b h = cc

pub raises-ne-answers {ℓ} : {A : Type ℓ} (e : ClientError) (a : A) → raises e ≢ answers a
raises-ne-answers e a h = cc

-- To split on what a call gave and keep the equation.
pub Reply-cases {ℓ} :
    {A : Type ℓ} (r : Reply A) → ((e : ClientError) × (r ≡ raises e)) ⊎ ((a : A) × (r ≡ answers a))
Reply-cases (raises e) = inl (e, refl)
Reply-cases (answers a) = inr (a, refl)
