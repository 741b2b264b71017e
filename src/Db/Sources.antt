-- ===== src/Db/Sources.antt =====
-- src/tuntu/db/repository.py: the methods on the health of sources.
pub mod Streaks
use tuntu.Prelude.{
  ℕ, ◌+◌, String, Bool, ◌&&◌, Option, none, some, List, [], ◌∷◌, first, ◌==◌, string_eq,
  if◌then◌else◌,
}

-- `SourceHealthRow`
pub record SourceHealth : Type 0 where
  pub source_kind : String
  pub source_name : String
  pub last_success_at : Option ℕ
  pub last_checked_at : ℕ
  pub last_latency_ms : ℕ
  pub last_result_count : Option ℕ
  pub consecutive_failures : ℕ
  pub last_error_code : Option String
  pub last_error_summary : Option String

abbrev pub is_source : String → String → SourceHealth → Bool
is_source kind name h = h.source_kind == kind && h.source_name == name

-- `INSERT … ON CONFLICT DO UPDATE`, on the primary key.
unfoldable pub upsert :
    SourceHealth → (SourceHealth → SourceHealth) → List SourceHealth → List SourceHealth
upsert new change [] = new ∷ []
upsert new change (h ∷ hs) =
    let rest = upsert new change hs in
    if is_source new.source_kind new.source_name h then change h ∷ hs else h ∷ rest

unfoldable pub record_source_success :
    (kind name : String) (latency_ms result_count checked_at : ℕ)
    → List SourceHealth
    → List SourceHealth
record_source_success kind name latency_ms result_count checked_at =
    upsert
      (record {
        source_kind = kind;
        source_name = name;
        last_success_at = some checked_at;
        last_checked_at = checked_at;
        last_latency_ms = latency_ms;
        last_result_count = some result_count;
        consecutive_failures = 0;
        last_error_code = none;
        last_error_summary = none;
      })
      (λ h. record h {
        last_success_at = some checked_at;
        last_checked_at = checked_at;
        last_latency_ms = latency_ms;
        last_result_count = some result_count;
        consecutive_failures = 0;
        last_error_code = none;
        last_error_summary = none;
      })

unfoldable pub record_source_failure :
    (kind name error_code error_summary : String) (latency_ms checked_at : ℕ)
    → List SourceHealth
    → List SourceHealth
record_source_failure kind name error_code error_summary latency_ms checked_at =
    upsert
      (record {
        source_kind = kind;
        source_name = name;
        last_success_at = none;
        last_checked_at = checked_at;
        last_latency_ms = latency_ms;
        last_result_count = none;
        consecutive_failures = 1;
        last_error_code = some error_code;
        last_error_summary = some error_summary;
      })
      (λ h. record h {
        last_checked_at = checked_at;
        last_latency_ms = latency_ms;
        consecutive_failures = h.consecutive_failures + 1;
        last_error_code = some error_code;
        last_error_summary = some error_summary;
      })

unfoldable pub get_source_health : String → String → List SourceHealth → Option SourceHealth
get_source_health kind name hs = first (is_source kind name) hs
