-- ===== src/Db/Items.antt =====
-- src/tuntu/db/repository.py: the methods on content items, run items, candidates, their evidence and
-- their evaluations, with the rows of src/tuntu/db/models.py. A new row's id is the one after the
-- largest. `str.casefold` is a parameter.
pub mod Evidence
use tuntu.Prelude.{
  ℕ, suc, String, Bool, true, false, not, ◌&&◌, ◌||◌, Option, none, some, List, [], ◌∷◌, map, any,
  all, first, sorted, Text, ltb, leb, length, ◌==◌, nat_eq, list_eq, string_eq, if◌then◌else◌,
}
use tuntu.Errors.{Result, ok, err, key_error, value_error, integrity_error, ◌>>=◌}
use tuntu.Magnet.{strip}
use tuntu.Selection.Evidence.{
  TruthValue, yes_value, no_value, unknown_value, RankingEvidence, CandidateEvidence,
  candidate_evidence,
}
use tuntu.Selection.Content.{ContentItem, title_le, update_all}
use tuntu.Selection.Candidates.{is_hex_digit}
use tuntu.Selection.Rules.{RuleReason}
use tuntu.Db.Sources.{SourceHealth}
use tuntu.Db.Tables.{Candidate, Db}

-- `ContentItemRow`
pub record ContentRow : Type 0 where
  pub id : ℕ
  pub namespace : Text
  pub raw_key : Text
  pub normalized_key : Text
  pub title : Text
  pub metadata : List (Text × Text)

-- `RunItemRow`
pub record RunItem : Type 0 where
  pub id : ℕ
  pub run_id : ℕ
  pub content_item_id : ℕ
  pub result_status : String
  pub rankings : List RankingEvidence
  pub duplicate_task_id : Option ℕ

-- `CandidateEvidenceRow`
pub record EvidenceRow : Type 0 where
  pub id : ℕ
  pub run_item_id : ℕ
  pub candidate_id : ℕ
  pub source : Text
  pub magnet_uri : Text
  pub title : Text
  pub size : Option ℕ
  pub seeders : Option ℕ
  pub chinese_subtitles : String
  pub uncensored : String
  pub uhd : String
  pub notes : List Text

-- `EvaluationRow`
pub record EvaluationRow : Type 0 where
  pub id : ℕ
  pub run_item_id : ℕ
  pub candidate_id : ℕ
  pub accepted : Bool
  pub reasons : List RuleReason

-- The tables that the processing of an item changes. `core` has the ids of the content items and run
-- items too, since the foreign keys of a task refer to them.
pub record Store : Type 0 where
  pub core : Db
  pub contents : List ContentRow
  pub run_items : List RunItem
  pub evidence : List EvidenceRow
  pub evaluations : List EvaluationRow
  pub health : List SourceHealth

-- The id that SQLite gives a new row.
abbrev pub next_id : List ℕ → ℕ
next_id [] = 1
next_id (i ∷ is) = let rest = next_id is in if leb rest i then suc i else rest

-- `session.get(Row, id)`
abbrev pub get_row {ℓ} : {A : Type ℓ} → (A → ℕ) → ℕ → List A → Option A
get_row id_of i rows = first (λ r. id_of r == i) rows

abbrev pub has_row {ℓ} : {A : Type ℓ} → (A → ℕ) → ℕ → List A → Bool
has_row id_of i rows = any (λ r. id_of r == i) rows

abbrev pub is_content : Text → Text → ContentRow → Bool
is_content namespace normalized_key r =
    r.namespace == namespace && r.normalized_key == normalized_key

-- `UPDATE … WHERE id = …`
abbrev change_row {ℓ} : {A : Type ℓ} → (A → ℕ) → ℕ → (A → A) → List A → List A
change_row id_of i change rows = map (λ r. if id_of r == i then change r else r) rows

module _ (casefold : Text → Text) where
  -- The row that is there gets the longer title and the new metadata.
  abbrev known_content : ContentItem → ContentRow → ContentRow
  known_content c r = record r {
    title = if not (title_le casefold c.title r.title) then c.title else r.title;
    metadata = update_all r.metadata c.metadata;
  }

  abbrev pub upsert_found : Text → Text → ContentItem → Store → Option ContentRow → ℕ × Store
  upsert_found namespace normalized_key c s (some r) = (
    r.id,
    record s { contents = change_row (λ (q : ContentRow). q.id) r.id (known_content c) s.contents },
  )
  upsert_found namespace normalized_key c s none =
      let i = next_id (map (λ (q : ContentRow). q.id) s.contents) in
      let row : ContentRow = record {
        id = i;
        namespace = namespace;
        raw_key = c.raw_key;
        normalized_key = normalized_key;
        title = c.title;
        metadata = c.metadata;
      } in
      (
        i,
        record s {
          core = record s.core { contents = i ∷ s.core.contents };
          contents = row ∷ s.contents;
        },
      )

  -- `upsert_content`, with the fields of the item that the run service passes. The INSERT follows a
  -- SELECT in one session, so that the key is free and the id is new.
  unfoldable pub upsert_content : ContentItem → Store → Result (ℕ × Store)
  upsert_content c s =
      let namespace = casefold (strip c.namespace) in
      let normalized_key = casefold (strip c.normalized_key) in
      ok (
        upsert_found namespace normalized_key c s
          (first (is_content namespace normalized_key) s.contents))

  abbrev pub candidate_found : Text → Store → Option Candidate → Result (ℕ × Store)
  candidate_found btih s (some c) = ok (c.id, s)
  candidate_found btih s none =
      let i = next_id (map (λ (c : Candidate). c.id) s.core.candidates) in
      let row : Candidate = record { id = i; btih = btih } in
      if length btih == 40 && all is_hex_digit btih
      then ok (i, record s { core = record s.core { candidates = row ∷ s.core.candidates } })
      else err integrity_error

  -- `upsert_candidate`. What the check of the table refuses is raised again, as no row has the BTIH.
  unfoldable pub upsert_candidate : Text → Store → Result (ℕ × Store)
  upsert_candidate text s =
      let btih = casefold (strip text) in
      candidate_found btih s (first (λ (c : Candidate). c.btih == btih) s.core.candidates)

abbrev pub run_item_id_of : RunItem → ℕ
run_item_id_of r = r.id

-- `add_run_item`. The ids of the runs, which the row refers to, are an argument: no method here
-- changes that table.
unfoldable pub add_run_item :
    (runs : List ℕ) (run_id content_item_id : ℕ)
    → String
    → List RankingEvidence
    → Store
    → Result (ℕ × Store)
add_run_item runs run_id content_item_id result_status rankings s =
    let i = next_id (map run_item_id_of s.run_items) in
    let row : RunItem = record {
      id = i;
      run_id = run_id;
      content_item_id = content_item_id;
      result_status = result_status;
      rankings = rankings;
      duplicate_task_id = none;
    } in
    if any (λ (r : RunItem). r.run_id == run_id && r.content_item_id == content_item_id) s.run_items
    then err integrity_error
    else if not
        (any (λ (n : ℕ). n == run_id) runs && any (λ (n : ℕ). n == content_item_id) s.core.contents)
    then err integrity_error
    else ok (
      i,
      record s {
        core = record s.core { run_items = i ∷ s.core.run_items };
        run_items = row ∷ s.run_items;
      },
    )

abbrev or_duplicate : Option ℕ → Option ℕ → Option ℕ
or_duplicate old none = old
or_duplicate old (some task_id) = some task_id

-- `update_run_item_status`
unfoldable pub update_run_item_status : ℕ → String → Option ℕ → Store → Result (Unit {0} × Store)
update_run_item_status run_item_id status duplicate_task_id s =
    if has_row run_item_id_of run_item_id s.run_items
    then ok (
      tt,
      record s {
        run_items =
            change_row run_item_id_of run_item_id
              (λ (r : RunItem). record r {
                result_status = status;
                duplicate_task_id = or_duplicate r.duplicate_task_id duplicate_task_id;
              })
              s.run_items;
      },
    )
    else err key_error

-- The two foreign keys of evidence and of an evaluation.
abbrev pub refers_to_result : ℕ → ℕ → Store → Bool
refers_to_result run_item_id candidate_id s =
    has_row run_item_id_of run_item_id s.run_items
    && has_row (λ (c : Candidate). c.id) candidate_id s.core.candidates

-- `TruthValue.value`
abbrev pub truth_word : TruthValue → String
truth_word yes_value = "yes"
truth_word no_value = "no"
truth_word unknown_value = "unknown"

-- `TruthValue(…)`
abbrev pub truth_of : String → Result TruthValue
truth_of word =
    if word == "yes"
    then ok yes_value
    else if word == "no"
    then ok no_value
    else if word == "unknown"
    then ok unknown_value
    else err value_error

abbrev pub evidence_row : (id run_item_id candidate_id : ℕ) → CandidateEvidence → EvidenceRow
evidence_row id run_item_id candidate_id e = record {
  id = id;
  run_item_id = run_item_id;
  candidate_id = candidate_id;
  source = e.source;
  magnet_uri = e.magnet_uri;
  title = e.title;
  size = e.size;
  seeders = e.seeders;
  chinese_subtitles = truth_word e.chinese_subtitles;
  uncensored = truth_word e.uncensored;
  uhd = truth_word e.uhd;
  notes = e.notes;
}

abbrev pub evidence_id_of : EvidenceRow → ℕ
evidence_id_of r = r.id

-- `add_candidate_evidence`
unfoldable pub add_candidate_evidence :
    (run_item_id candidate_id : ℕ) → CandidateEvidence → Store → Result (ℕ × Store)
add_candidate_evidence run_item_id candidate_id e s =
    let i = next_id (map evidence_id_of s.evidence) in
    if refers_to_result run_item_id candidate_id s
    then ok (i, record s { evidence = evidence_row i run_item_id candidate_id e ∷ s.evidence })
    else err integrity_error

abbrev pub evidence_of_row : Option EvidenceRow → Result CandidateEvidence
evidence_of_row none = err key_error
evidence_of_row (some r) = do
  subtitles ← truth_of r.chinese_subtitles
  censoring ← truth_of r.uncensored
  resolution ← truth_of r.uhd
  candidate_evidence (record {
    source = r.source;
    magnet_uri = r.magnet_uri;
    title = r.title;
    size = r.size;
    seeders = r.seeders;
    chinese_subtitles = subtitles;
    uncensored = censoring;
    uhd = resolution;
    notes = r.notes;
  })

-- `get_candidate_evidence`
unfoldable pub get_candidate_evidence : ℕ → Store → Result CandidateEvidence
get_candidate_evidence evidence_id s =
    evidence_of_row (get_row evidence_id_of evidence_id s.evidence)

abbrev pub evaluation_id_of : EvaluationRow → ℕ
evaluation_id_of r = r.id

-- `add_evaluation`
unfoldable pub add_evaluation :
    (run_item_id candidate_id : ℕ) → Bool → List RuleReason → Store → Result (ℕ × Store)
add_evaluation run_item_id candidate_id accepted reasons s =
    let i = next_id (map evaluation_id_of s.evaluations) in
    let row : EvaluationRow = record {
      id = i;
      run_item_id = run_item_id;
      candidate_id = candidate_id;
      accepted = accepted;
      reasons = reasons;
    } in
    if any (λ (r : EvaluationRow). r.run_item_id == run_item_id && r.candidate_id == candidate_id)
      s.evaluations
    then err integrity_error
    else if refers_to_result run_item_id candidate_id s
    then ok (i, record s { evaluations = row ∷ s.evaluations })
    else err integrity_error

abbrev reasons_of_row : Option EvaluationRow → Result (List RuleReason)
reasons_of_row none = err key_error
reasons_of_row (some r) = ok r.reasons

-- `get_evaluation_reasons`
unfoldable pub get_evaluation_reasons : ℕ → Store → Result (List RuleReason)
get_evaluation_reasons evaluation_id s =
    reasons_of_row (get_row evaluation_id_of evaluation_id s.evaluations)
