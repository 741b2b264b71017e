-- ===== src/Selection/Candidates.antt =====
-- src/tuntu/models.py: `Candidate`, and src/tuntu/normalization.py.
use tuntu.Prelude.{
  ℕ, Bool, not, ◌&&◌, ◌||◌, Option, none, some, List, [], ◌∷◌, ◌++◌, map, all, keep, Text, length,
  is_empty, ltb, sorted, ◌==◌, nat_eq, list_eq, pair_eq, if◌then◌else◌,
}
use tuntu.Errors.{Result, ok, err, value_error, ◌>>=◌}
use tuntu.Magnet.{strip, between, Urls, parse_magnet, plain_uri}
use tuntu.Selection.Evidence.{TruthValue, unknown_value, truth_beq, CandidateEvidence, evidence_beq}
use tuntu.Selection.Content.{add_new, unique, folded_le, title_le}

pub record Candidate : Type 0 where
  pub item_identity : Text × Text
  pub btih : Text
  pub evidence : List CandidateEvidence

abbrev pub is_hex_digit : ℕ → Bool
is_hex_digit c = between b'0' b'9' c || between b'a' b'f' c

-- `Candidate(…)`
unfoldable pub make_candidate : Candidate → Result Candidate
make_candidate c =
    if is_empty c.item_identity.0 || is_empty c.item_identity.1
    then err value_error
    else if not (length c.btih == 40 && all is_hex_digit c.btih)
    then err value_error
    else if is_empty c.evidence
    then err value_error
    else ok c

abbrev pub magnet_uri : Candidate → Text
magnet_uri c = plain_uri c.btih

-- The known values of a field.
abbrev pub known {ℓ} : {A : Type ℓ} → List (Option A) → List A
known [] = []
known (none ∷ os) = known os
known (some a ∷ os) = a ∷ known os

-- `next(iter(values)) if len(set(values)) == 1 else …`
abbrev pub agreed {ℓ} : {A : Type ℓ} → (A → A → Bool) → List A → Option A
agreed same [] = none
agreed same (a ∷ as') = if all (same a) as' then some a else none

unfoldable pub size_mb : Candidate → Option ℕ
size_mb c =
    agreed (λ (m n : ℕ). m == n) (known (map (λ (e : CandidateEvidence). e.size) c.evidence))

abbrev greatest : List ℕ → Option ℕ
greatest [] = none
greatest (n ∷ ns) = elim (greatest ns) [ none ↦ some n | some m ↦ some (if ltb m n then n else m) ]

unfoldable pub seeders : Candidate → Option ℕ
seeders c = greatest (known (map (λ (e : CandidateEvidence). e.seeders) c.evidence))

abbrev told : TruthValue → Bool
told v = not (truth_beq v unknown_value)

abbrev or_unknown : Option TruthValue → TruthValue
or_unknown none = unknown_value
or_unknown (some v) = v

-- `_truth_value`
unfoldable pub truth_value : (CandidateEvidence → TruthValue) → Candidate → TruthValue
truth_value field_of c = or_unknown (agreed truth_beq (keep told (map field_of c.evidence)))

abbrev pub chinese_subtitles : Candidate → TruthValue
chinese_subtitles c = truth_value (λ (e : CandidateEvidence). e.chinese_subtitles) c

abbrev pub uncensored : Candidate → TruthValue
uncensored c = truth_value (λ (e : CandidateEvidence). e.uncensored) c

abbrev pub uhd : Candidate → TruthValue
uhd c = truth_value (λ (e : CandidateEvidence). e.uhd) c

-- `{entry.title for entry in self.evidence if entry.title}`
abbrev pub titles : Candidate → List Text
titles c =
    unique (keep (λ t. not (is_empty t)) (map (λ (e : CandidateEvidence). e.title) c.evidence))

abbrev join_lines : List Text → Text
join_lines [] = []
join_lines (t ∷ []) = t
join_lines (t ∷ (u ∷ us)) = t ++ 10 ∷ join_lines (u ∷ us)

module _ (casefold : Text → Text) where
  -- The later of two titles with one key is the same title.
  abbrev longest : List Text → Text
  longest [] = []
  longest (t ∷ ts) =
      let best = longest ts in if is_empty ts || title_le casefold best t then t else best

  unfoldable pub candidate_title : Candidate → Text
  candidate_title c = longest (titles c)

  unfoldable pub search_text : Candidate → Text
  search_text c = join_lines (sorted (folded_le casefold) (titles c))

  unfoldable pub candidate_sources : Candidate → List Text
  candidate_sources c =
      sorted (folded_le casefold) (unique (map (λ (e : CandidateEvidence). e.source) c.evidence))

  -- `candidate_from_magnet`
  unfoldable pub candidate_from_magnet : Urls → Text × Text → CandidateEvidence → Result Candidate
  candidate_from_magnet urls item_identity evidence = do
    parsed ← parse_magnet urls evidence.magnet_uri
    make_candidate (record {
      item_identity = (casefold (strip item_identity.0), casefold (strip item_identity.1));
      btih = parsed.btih;
      evidence = evidence ∷ [];
    })

-- `Candidate.merge_from`
unfoldable pub merge_candidate : Candidate → Candidate → Result Candidate
merge_candidate c other =
    if not (c.item_identity == other.item_identity && c.btih == other.btih)
    then err value_error
    else ok (record c { evidence = add_new evidence_beq c.evidence other.evidence })
