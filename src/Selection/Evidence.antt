-- ===== src/Selection/Evidence.antt =====
-- src/tuntu/models.py: rankings and evidence, as the sources report them.
-- Sizes are counts of one unit that is small enough for each size that occurs: the program only
-- compares them. `str.casefold` is a parameter of what uses it.
use tuntu.Prelude.{
  ℕ, Bool, true, false, ◌&&◌, Option, List, Text, is_empty, ltb, ◌==◌, nat_eq, list_eq, option_eq,
  if◌then◌else◌,
}
use tuntu.Errors.{Result, ok, err, value_error}
use tuntu.Magnet.{strip}

pub data TruthValue : Type 0 where
  yes_value no_value unknown_value : TruthValue

abbrev pub truth_beq : TruthValue → TruthValue → Bool
truth_beq yes_value yes_value = true
truth_beq no_value no_value = true
truth_beq unknown_value unknown_value = true
truth_beq _ _ = false

pub record RankingEvidence : Type 0 where
  pub source : Text
  pub rank : ℕ
  pub raw_key : Text
  pub scope : Text

-- `not value.strip()`
abbrev pub is_blank : Text → Bool
is_blank value = is_empty (strip value)

-- `RankingEvidence(…)`
unfoldable pub ranking_evidence : RankingEvidence → Result RankingEvidence
ranking_evidence r =
    if is_blank r.source
    then err value_error
    else if ltb r.rank 1
    then err value_error
    else if is_blank r.raw_key
    then err value_error
    else ok r

abbrev pub ranking_beq : RankingEvidence → RankingEvidence → Bool
ranking_beq r s =
    r.source == s.source && (r.rank == s.rank && (r.raw_key == s.raw_key && r.scope == s.scope))

pub record CandidateEvidence : Type 0 where
  pub source : Text
  pub magnet_uri : Text
  pub title : Text
  pub size : Option ℕ
  pub seeders : Option ℕ
  pub chinese_subtitles : TruthValue
  pub uncensored : TruthValue
  pub uhd : TruthValue
  pub notes : List Text

-- `CandidateEvidence(…)`. A size or a number of seeders below 0 has no value here.
unfoldable pub candidate_evidence : CandidateEvidence → Result CandidateEvidence
candidate_evidence e =
    if is_blank e.source
    then err value_error
    else if is_blank e.magnet_uri
    then err value_error
    else ok e

abbrev same_facts : CandidateEvidence → CandidateEvidence → Bool
same_facts d e =
    truth_beq d.chinese_subtitles e.chinese_subtitles
    && (truth_beq d.uncensored e.uncensored && (truth_beq d.uhd e.uhd && d.notes == e.notes))

abbrev pub evidence_beq : CandidateEvidence → CandidateEvidence → Bool
evidence_beq d e =
    (d.source == e.source && (d.magnet_uri == e.magnet_uri && d.title == e.title))
    && ((d.size == e.size && d.seeders == e.seeders) && same_facts d e)
