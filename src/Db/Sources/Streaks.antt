-- ===== src/Db/Sources/Streaks.antt =====
-- The health of a source after any reports on it and on others.
use tuntu.Prelude.{
  ℕ, ◌+◌, ◌≡◌, refl, ap, ◌∙◌, String, Bool, true, false, ◌&&◌, Option, none, some, List, [], ◌∷◌,
  first, ◌==◌, string_eq, arith, Bool-cases, inl, inr, if◌then◌else◌,
}
use tuntu.Db.Sources.{
  SourceHealth, is_source, upsert, record_source_success, record_source_failure, get_source_health,
}

pub data Report : Type 0 where
  success : (kind name : String) (latency_ms result_count checked_at : ℕ) → Report
  failure : (kind name error_code error_summary : String) (latency_ms checked_at : ℕ) → Report

-- The table after these reports, the newest first.
unfoldable pub reported : List Report → List SourceHealth
reported [] = []
reported (success kind name latency_ms result_count checked_at ∷ older) =
    record_source_success kind name latency_ms result_count checked_at (reported older)
reported (failure kind name error_code error_summary latency_ms checked_at ∷ older) =
    record_source_failure kind name error_code error_summary latency_ms checked_at (reported older)

abbrev pub about : String → String → String → String → Bool
about kind name k n = k == kind && n == name

-- The failures of a source since its last success, and the time of that success.
abbrev pub failures_since_success : String → String → List Report → ℕ
failures_since_success kind name [] = 0
failures_since_success kind name (success k n latency_ms result_count checked_at ∷ older) =
    let rest = failures_since_success kind name older in if about kind name k n then 0 else rest
failures_since_success kind name
      (failure k n error_code error_summary latency_ms checked_at ∷ older) =
    let rest = failures_since_success kind name older in
    if about kind name k n then rest + 1 else rest

abbrev pub last_success : String → String → List Report → Option ℕ
last_success kind name [] = none
last_success kind name (success k n latency_ms result_count checked_at ∷ older) =
    let rest = last_success kind name older in if about kind name k n then some checked_at else rest
last_success kind name (failure k n error_code error_summary latency_ms checked_at ∷ older) =
    last_success kind name older

-- A source without a row counts as one without failures and without a success.
abbrev pub counted : Option SourceHealth → ℕ × Option ℕ
counted none = (0, none)
counted (some h) = (h.consecutive_failures, h.last_success_at)

abbrev changed : SourceHealth → (SourceHealth → SourceHealth) → Option SourceHealth → SourceHealth
changed new change none = new
changed new change (some h) = change h

about-eq : (kind name k n : String) → about kind name k n ≡ true → (k ≡ kind) × (n ≡ name)
about-eq kind name k n h = (
  (string_eq.equal_iff k kind).0 (ground (arith, h)),
  (string_eq.equal_iff n name).0 (ground (arith, h)),
)

module _ (kind name : String) (new : SourceHealth) (change : SourceHealth → SourceHealth)
    (same_kind : (h : SourceHealth) → (change h).source_kind ≡ h.source_kind)
    (same_name : (h : SourceHealth) → (change h).source_name ≡ h.source_name) where
  is_source-change : (h : SourceHealth) → is_source kind name (change h) ≡ is_source kind name h
  is_source-change h = rw (same_kind h, same_name h) refl

  is_source-new :
      (h : SourceHealth)
      → is_source new.source_kind new.source_name h ≡ true
      → is_source kind name h ≡ is_source kind name new
  is_source-new h k =
      let (a, b) = about-eq new.source_kind new.source_name h.source_kind h.source_name k in
      rw (a, b) refl

  is_source-missed :
      (h : SourceHealth)
      → is_source kind name new ≡ true
      → is_source new.source_kind new.source_name h ≡ false
      → is_source kind name h ≡ false
  is_source-missed h own k =
      let (a, b) = about-eq kind name new.source_kind new.source_name own in rw (a, b) at k

  -- The row of the source is changed or made; the rows of other sources are found as before.
  first-upsert :
      (hs : List SourceHealth)
      → first (is_source kind name) (upsert new change hs) ≡ (
          if is_source kind name new
          then some (changed new change (first (is_source kind name) hs))
          else first (is_source kind name) hs)
  unfolding upsert
  first-upsert [] = refl
  first-upsert (h ∷ hs) = elim (Bool-cases (is_source new.source_kind new.source_name h)) [
    | inl here ↦ elim (Bool-cases (is_source kind name new)) [
      | inl own ↦ rw (here, is_source-change h, is_source-new h here, own) refl
      | inr apart ↦ rw (here, is_source-change h, is_source-new h here, apart) refl
    ]
    | inr missed ↦ elim (Bool-cases (is_source kind name new)) [
      | inl own ↦ rw (missed, is_source-missed h own missed, own) (first-upsert hs ∙ rw own refl)
      | inr apart ↦
          rw (missed, apart)
            (ap (λ (o : Option SourceHealth). if is_source kind name h then some h else o)
              (first-upsert hs ∙ rw apart refl))
    ]
  ]

counted-success :
    (own : Bool) (o : Option SourceHealth) (new : SourceHealth)
    (change : SourceHealth → SourceHealth) (at : ℕ)
    → counted (some new) ≡ (0, some at)
    → ((h : SourceHealth) → counted (some (change h)) ≡ (0, some at))
    → counted (if own then some (changed new change o) else o)
      ≡ ((if own then 0 else (counted o).0), (if own then some at else (counted o).1))
counted-success true none new change at a b = a
counted-success true (some h) new change at a b = b h
counted-success false none new change at a b = refl
counted-success false (some h) new change at a b = refl

counted-failure :
    (own : Bool) (o : Option SourceHealth) (new : SourceHealth)
    (change : SourceHealth → SourceHealth)
    → counted (some new) ≡ (1, none)
    → ((h : SourceHealth)
        → counted (some (change h)) ≡ (h.consecutive_failures + 1, h.last_success_at))
    → counted (if own then some (changed new change o) else o)
      ≡ ((if own then (counted o).0 + 1 else (counted o).0), (counted o).1)
counted-failure true none new change a b = a
counted-failure true (some h) new change a b = b h
counted-failure false none new change a b = refl
counted-failure false (some h) new change a b = refl

-- Whatever is reported, on this source and on others: the row of a source counts its failures since
-- its last success and has the time of that success.
pub source_health-counts :
    (kind name : String) (reports : List Report)
    → counted (get_source_health kind name (reported reports))
      ≡ (failures_since_success kind name reports, last_success kind name reports)
unfolding get_source_health reported record_source_success record_source_failure
source_health-counts kind name [] = refl
source_health-counts kind name (success k n latency_ms result_count checked_at ∷ older) =
    let o = get_source_health kind name (reported older) in
    ap counted (first-upsert kind name _ _ (λ h. refl) (λ h. refl) (reported older))
    ∙ counted-success (about kind name k n) o _ _ checked_at refl (λ h. refl)
    ∙ ap
        (λ (p : ℕ × Option ℕ). (
          (if about kind name k n then 0 else p.0),
          (if about kind name k n then some checked_at else p.1),
        ))
        (source_health-counts kind name older)
source_health-counts kind name
      (failure k n error_code error_summary latency_ms checked_at ∷ older) =
    let o = get_source_health kind name (reported older) in
    ap counted (first-upsert kind name _ _ (λ h. refl) (λ h. refl) (reported older))
    ∙ counted-failure (about kind name k n) o _ _ refl (λ h. refl)
    ∙ ap (λ (p : ℕ × Option ℕ). ((if about kind name k n then p.0 + 1 else p.0), p.1))
        (source_health-counts kind name older)
