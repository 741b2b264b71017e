-- ===== src/Downloads/State/Graph.antt =====
-- The transition diagram of a task, and what `transition_status` has to do with it.
use tuntu.Prelude.{
  ℕ, ◌≡◌, refl, sym, subst, ◌∙◌, Bool, true, false, not, ◌&&◌, ◌||◌, Option, none, some, arith,
  ◌==◌, beq_self, if◌then◌else◌, ◌⊎◌, ◌↔◌,
}
use tuntu.Errors.{ok, err, invalid_transition}
use tuntu.Downloads.State.{
  DownloadStatus, submitting, submitted, downloading, completed, failed, attention_required,
  status_eq, allowed, is_terminal, is_due, transition_status,
}

-- One accepted change of status, or none.
infix 40 ◌⟶◌
pub data ◌⟶◌ : DownloadStatus → DownloadStatus → Type 0 where
  stay : {s : DownloadStatus} → s ⟶ s
  accept : submitting ⟶ submitted
  recover : attention_required ⟶ submitted
  start : {s : DownloadStatus} → is_terminal s ≡ false → s ⟶ downloading
  finish : {s : DownloadStatus} → is_terminal s ≡ false → s ⟶ completed
  give_up : {s : DownloadStatus} → is_terminal s ≡ false → s ⟶ failed
  worry : {s : DownloadStatus} → is_terminal s ≡ false → s ⟶ attention_required

-- Any number of changes.
infix 40 ◌⟶*◌
pub data ◌⟶*◌ : DownloadStatus → DownloadStatus → Type 0 where
  done : {s : DownloadStatus} → s ⟶* s
  onward : {s t r : DownloadStatus} → s ⟶ t → t ⟶* r → s ⟶* r

-- The same as a test.
abbrev pub edge : DownloadStatus → DownloadStatus → Bool
edge s t = t == s || allowed s t

pub edge→⟶ : (s t : DownloadStatus) → edge s t ≡ true → s ⟶ t
edge→⟶ s t h = grind (arith, stay, accept, recover, start, finish, give_up, worry)

pub ⟶→edge : {s t : DownloadStatus} → s ⟶ t → edge s t ≡ true
⟶→edge (stay {s = s}) = ground (arith, beq_self s)
⟶→edge accept = refl
⟶→edge recover = refl
⟶→edge (start {s = s} h) = ground arith
⟶→edge (finish {s = s} h) = ground arith
⟶→edge (give_up {s = s} h) = ground arith
⟶→edge (worry {s = s} h) = ground arith

-- Given a target and reliable evidence, the function accepts exactly the targets that the diagram
-- leads to, and then returns the target; every other target raises InvalidStatusTransition. Without a
-- target, or on unreliable evidence, it never raises: it moves an unfinished task to
-- attention_required once its time has come, and leaves the status alone otherwise.
pub transition_status-⟶ :
    (current target : DownloadStatus) (reliable : Bool) (now due : Option ℕ)
    → let r = transition_status current (some target) true now due in
      let idle =
        ok (if is_due now due && not (is_terminal current) then attention_required else current) in
      ((r ≡ ok target) ↔ (current ⟶ target))
      × ((r ≡ ok target) ⊎ (r ≡ err invalid_transition))
      × (transition_status current none reliable now due ≡ idle)
      × (transition_status current (some target) false now due ≡ idle)
unfolding transition_status
transition_status-⟶ current target reliable now due = (
  (λ h. edge→⟶ current target (ground (arith, h)), λ step. ground (arith, ⟶→edge step)),
  ground arith,
  refl,
  refl,
)

-- Whatever the arguments, a status that comes back is one that the diagram leads to.
pub transition_status-edge :
    (current : DownloadStatus) (target : Option DownloadStatus) (reliable : Bool)
    (now due : Option ℕ) {r : DownloadStatus}
    → transition_status current target reliable now due ≡ ok r
    → edge current r ≡ true
unfolding transition_status
transition_status-edge current none reliable now due h = ground arith
transition_status-edge current (some target) false now due h = ground arith
transition_status-edge current (some target) true now due h = ground arith

-- Without a target, or on unreliable evidence, the call never raises: it moves an unfinished task
-- to attention_required once its time has come, and leaves the status alone otherwise.
pub transition_status_without_evidence :
    (current : DownloadStatus) (target : Option DownloadStatus) (reliable : Bool)
    (now due : Option ℕ)
    → (target ≡ none) ⊎ (reliable ≡ false)
    → transition_status current target reliable now due
      ≡ ok (if is_due now due && not (is_terminal current) then attention_required else current)
unfolding transition_status
transition_status_without_evidence current none reliable now due h = refl
transition_status_without_evidence current (some t) false now due h = refl
transition_status_without_evidence current (some t) true now due h = ground arith

-- A finished task has no edge out.
pub edge_terminal : (s t : DownloadStatus) → is_terminal s ≡ true → edge s t ≡ true → t ≡ s
edge_terminal s t h e = ground arith

pub ⟶*_trans : {s t r : DownloadStatus} → s ⟶* t → t ⟶* r → s ⟶* r
⟶*_trans done more = more
⟶*_trans (onward step steps) more = onward step (⟶*_trans steps more)

pub ⟶*_terminal : (s t : DownloadStatus) → is_terminal s ≡ true → s ⟶* t → t ≡ s
⟶*_terminal s t h done = refl
⟶*_terminal s t h (onward {t = u} step steps) =
    let e : u ≡ s = edge_terminal s u h (⟶→edge step) in
    ⟶*_terminal u t (subst (λ (x : DownloadStatus). is_terminal x ≡ true) (sym e) h) steps ∙ e
