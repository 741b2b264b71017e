-- ===== src/Downloads/Completion/Streak.antt =====
-- When a task counts as completed: the last observations of its files agreed.
use tuntu.Prelude.{
  ℕ, zero, suc, ◌≡◌, refl, Bool, true, false, not, ◌||◌, List, [], ◌∷◌, is_empty, leb, nat_eq,
  list_eq, pair_eq, if◌then◌else◌, arith, Text, sorted, item_le, insert_sorted, ◌+◌, ap, ◌≤◌, ◌<◌,
  ◌∙◌, sym, ◌↔◌,
}
use tuntu.Errors.{Result, ok, ◌>>=◌, >>=-eq-ok}
use tuntu.Downloaders.Snapshot.{DirectorySnapshot}
use tuntu.Downloads.Completion.{
  Fingerprint, CompletionState, CompletionObservation, fingerprint, changed_files, sum_changed,
  observe_completion, same_print, same_print_iff, completion_state,
}

-- Files that count as progress: some changed, and not all of them empty.
pub is_progress : Fingerprint → Bool
is_progress print = not (is_empty print || leb (sum_changed print) 0)

-- How many fingerprints at the head of the list are this one.
abbrev pub agreeing : Fingerprint → List Fingerprint → ℕ
agreeing print [] = 0
agreeing print (p ∷ ps) = let rest = agreeing print ps in if same_print p print then suc rest else 0

-- The newest fingerprint first: how many in a row showed the same progress.
abbrev pub streak : List Fingerprint → ℕ
streak [] = 0
streak (p ∷ ps) = if is_progress p then suc (agreeing p ps) else 0

-- One observation after another, with the fingerprints that were seen.
unfoldable pub watch :
    CompletionState
    → List Fingerprint
    → List DirectorySnapshot
    → Result (CompletionState × List Fingerprint)
watch state seen [] = ok (state, seen)
watch state seen (s ∷ rest) = do
  o ← observe_completion state s
  watch o.state (fingerprint state s ∷ seen) rest

abbrev last_progress : List Fingerprint → Fingerprint
last_progress [] = []
last_progress (p ∷ ps) = if is_progress p then p else []

-- What the stored counters say of the fingerprints seen so far.
pub record Counts (state : CompletionState) (seen : List Fingerprint) : Type 0 where
  pub stable : state.stable_observations ≡ streak seen
  pub latest : state.last_fingerprint ≡ last_progress seen

sum-insert_sorted :
    (x : Text × ℕ) (ys : List (Text × ℕ))
    → sum_changed (insert_sorted item_le x ys) ≡ sum_changed (x ∷ ys)
sum-insert_sorted x [] = refl
sum-insert_sorted x (y ∷ ys) = ground (arith, sum-insert_sorted x ys)

-- Sorting changes no total.
sum-sorted : (xs : List (Text × ℕ)) → sum_changed (sorted item_le xs) ≡ sum_changed xs
sum-sorted [] = refl
sum-sorted ((p, n) ∷ xs) =
    omega (arith, sum-insert_sorted (p, n) (sorted item_le xs), sum-sorted xs)

not-progress-nil : is_progress [] ≡ false
unfolding is_progress
not-progress-nil = refl

streak_next :
    (print last : Fingerprint) (seen : List Fingerprint)
    → is_progress print ≡ true
    → last ≡ last_progress seen
    → streak (print ∷ seen) ≡ (if same_print print last then streak seen + 1 else 1)
streak_next print last [] h e = ground (arith, same_print_iff print last, not-progress-nil)
streak_next print last (p ∷ ps) h e = ground (
  arith,
  same_print_iff print last,
  same_print_iff p print,
  not-progress-nil,
  ap (λ (q : Fingerprint). agreeing q ps) e,
)

-- The test of the function, over the fingerprint alone.
progress_test :
    (state : CompletionState) (s : DirectorySnapshot)
    → (is_empty (fingerprint state s) || leb (sum_changed (changed_files state s)) 0)
      ≡ not (is_progress (fingerprint state s))
unfolding is_progress fingerprint
progress_test state s = ground (arith, sum-sorted (changed_files state s))

-- The counters still say what they should, and the task counts as completed exactly when the
-- required number of fingerprints agree.
pub observe-Counts :
    (state : CompletionState) (seen : List Fingerprint) (s : DirectorySnapshot)
    {o : CompletionObservation}
    → 2 ≤ state.required_stable_observations
    → Counts state seen
    → observe_completion state s ≡ ok o
    → Counts o.state (fingerprint state s ∷ seen)
      × (o.state.required_stable_observations ≡ state.required_stable_observations)
      × (o.completed ≡ leb state.required_stable_observations (streak (fingerprint state s ∷ seen)))
unfolding observe_completion
observe-Counts state seen s r c h =
    ground
      (arith, progress_test state s, streak_next (fingerprint state s) state.last_fingerprint seen)

watch-Counts :
    (state : CompletionState) (seen : List Fingerprint) (snapshots : List DirectorySnapshot)
    {final : CompletionState} {prints : List Fingerprint}
    → 2 ≤ state.required_stable_observations
    → Counts state seen
    → watch state seen snapshots ≡ ok (final, prints)
    → Counts final prints
      × (final.required_stable_observations ≡ state.required_stable_observations)
unfolding watch
watch-Counts state seen [] r c h = ground arith
watch-Counts state seen (s ∷ rest) r c h =
    let (o, first, later) = >>=-eq-ok (observe_completion state s) _ h in
    let (kept, same, _) = observe-Counts state seen s {o = o} r c first in
    let (counts, req) =
      watch-Counts o.state (fingerprint state s ∷ seen) rest (omega arith) kept later in
    (counts, req ∙ same)

-- The first `k` fingerprints of the list are there, and are this one.
abbrev pub AgreeLast : ℕ → Fingerprint → List Fingerprint → Type 0
AgreeLast zero print ps = Unit {0}
AgreeLast (suc k) print [] = ⊥
AgreeLast (suc k) print (p ∷ ps) = (p ≡ print) × AgreeLast k print ps

agreeing→AgreeLast :
    (k : ℕ) (print : Fingerprint) (ps : List Fingerprint)
    → k ≤ agreeing print ps
    → AgreeLast k print ps
agreeing→AgreeLast zero print ps h = tt
agreeing→AgreeLast (suc k) print [] h = omega arith
agreeing→AgreeLast (suc k) print (p ∷ ps) h =
    ground (arith, same_print_iff p print, agreeing→AgreeLast k print ps)

AgreeLast→agreeing :
    (k : ℕ) (print : Fingerprint) (ps : List Fingerprint)
    → AgreeLast k print ps
    → k ≤ agreeing print ps
AgreeLast→agreeing zero print ps h = omega arith
AgreeLast→agreeing (suc k) print [] h = absurd h
AgreeLast→agreeing (suc k) print (p ∷ ps) h =
    ground (arith, same_print_iff p print, AgreeLast→agreeing k print ps h.1)

is_progress_iff : (print : Fingerprint) → (is_progress print ≡ true) ↔ (0 < sum_changed print)
unfolding is_progress
is_progress_iff [] = (λ h. cc, λ h. absurd (omega arith))
is_progress_iff (x ∷ xs) = (λ h. ground arith, λ h. ground arith)

streak_iff :
    (k : ℕ) (print : Fingerprint) (ps : List Fingerprint)
    → (leb (suc k) (streak (print ∷ ps)) ≡ true) ↔ ((0 < sum_changed print) × AgreeLast k print ps)
streak_iff k print ps = (
  λ h. (ground (arith, is_progress_iff print), agreeing→AgreeLast k print ps (ground arith)),
  λ h. ground (arith, is_progress_iff print, AgreeLast→agreeing k print ps h.1),
)

-- Take a task whose tracking began with `required` as its number of stable observations, and any
-- snapshots that were observed since without an error. The next snapshot that is observed without
-- an error completes the task exactly when its changed files have a positive total size and the
-- `required` newest fingerprints, its own included, are all there and equal.
pub completed_iff_stable :
    (baseline s : DirectorySnapshot) (destination : Text) (required : ℕ)
    (snapshots : List DirectorySnapshot) (start state : CompletionState) (seen : List Fingerprint)
    (o : CompletionObservation)
    → completion_state baseline destination required ≡ ok start
    → watch start [] snapshots ≡ ok (state, seen)
    → observe_completion state s ≡ ok o
    → let print = fingerprint state s in
      (o.completed ≡ true) ↔ ((0 < sum_changed print) × AgreeLast required print (print ∷ seen))
unfolding completion_state
completed_iff_stable baseline s destination zero snapshots start state seen o e w h =
    absurd (ground arith)
completed_iff_stable baseline s destination (suc k) snapshots start state seen o e w h =
    let two : 2 ≤ suc k = ground arith in
    let begins : Counts start [] × (start.required_stable_observations ≡ suc k) = ground arith in
    let (counts, same) = watch-Counts start [] snapshots (omega arith) begins.0 w in
    let req : state.required_stable_observations ≡ suc k = same ∙ begins.1 in
    let (_, _, test) = observe-Counts state seen s {o = o} (omega arith) counts h in
    let exact = streak_iff k (fingerprint state s) seen in
    (
      λ done.
          let r = exact.0 (
            sym (ap (λ (n : ℕ). leb n (streak (fingerprint state s ∷ seen))) req)
            ∙ sym test
            ∙ done) in
          (r.0, (refl, r.1)),
      λ r.
          test
          ∙ ap (λ (n : ℕ). leb n (streak (fingerprint state s ∷ seen))) req
          ∙ exact.1 (r.0, r.1.1),
    )
