-- ===== src/Selection/Ranking.antt =====
-- src/tuntu/selector.py. A key is compared part by part, as Python compares tuples.
pub mod Best
use tuntu.Prelude.{
  ℕ, Bool, true, false, not, Option, none, some, List, first, Text, is_some, leb, text_le, lex, by,
  converse, list_le, if◌then◌else◌,
}
use tuntu.Selection.Candidates.{Candidate, seeders, size_mb, candidate_sources}
use tuntu.Selection.Rules.{Evaluation}

-- `0 if value is not None else 1` and `value or 0`
abbrev pub absent : Option ℕ → ℕ
absent none = 1
absent (some n) = 0

abbrev pub or_zero : Option ℕ → ℕ
or_zero none = 0
or_zero (some n) = n

-- The parts of a candidate's key. The second one is negated: it is compared the other way round.
abbrev pub Key : Type 0
Key = ℕ × (ℕ × (ℕ × (ℕ × (Text × List Text))))

abbrev pub key_le : Key → Key → Bool
key_le = lex leb (lex (converse leb) (lex leb (lex leb (lex text_le (list_le text_le)))))

module _ (casefold : Text → Text) where
  unfoldable pub candidate_sort_key : Candidate → Key
  candidate_sort_key c = (
    absent (seeders c),
    (
      or_zero (seeders c),
      (absent (size_mb c), (or_zero (size_mb c), (c.btih, candidate_sources casefold c))),
    ),
  )

  unfoldable pub evaluation_sort_key : Evaluation → ℕ × Key
  evaluation_sort_key e = ((if e.accepted then 0 else 1), candidate_sort_key e.candidate)

  -- `sort(key=evaluation_sort_key)`
  unfoldable pub evaluation_le : Evaluation → Evaluation → Bool
  evaluation_le = by evaluation_sort_key (lex leb key_le)

abbrev candidate_of : Option Evaluation → Option Candidate
candidate_of none = none
candidate_of (some e) = some e.candidate

unfoldable pub select_candidate : List Evaluation → Option Candidate
select_candidate evaluations = candidate_of (first (λ (e : Evaluation). e.accepted) evaluations)
