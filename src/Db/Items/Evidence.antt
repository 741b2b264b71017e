-- ===== src/Db/Items/Evidence.antt =====
-- Evidence that was stored is read back as it was.
use tuntu.Prelude.{ℕ, ◌≡◌, refl, inl, inr, some, ◌∷◌, map, nat_eq, arith, Bool-cases, beq_self}
use tuntu.Errors.{ok}
use tuntu.Selection.Evidence.{
  TruthValue, yes_value, no_value, unknown_value, CandidateEvidence, candidate_evidence,
}
use tuntu.Db.Items.{
  Store, next_id, truth_word, truth_of, evidence_row, add_candidate_evidence, evidence_of_row,
  get_candidate_evidence, refers_to_result, evidence_id_of,
}

truth_of-truth_word : (v : TruthValue) → truth_of (truth_word v) ≡ ok v
truth_of-truth_word yes_value = refl
truth_of-truth_word no_value = refl
truth_of-truth_word unknown_value = refl

evidence_of_row-evidence_row :
    (i run_item_id candidate_id : ℕ) (e : CandidateEvidence)
    → candidate_evidence e ≡ ok e
    → evidence_of_row (some (evidence_row i run_item_id candidate_id e)) ≡ ok e
evidence_of_row-evidence_row i run_item_id candidate_id e valid =
    rw
      (
        truth_of-truth_word e.chinese_subtitles,
        truth_of-truth_word e.uncensored,
        truth_of-truth_word e.uhd,
      )
      valid

-- Evidence that the constructor takes is read back unchanged under the id that storing it returned.
pub get_candidate_evidence-add :
    (run_item_id candidate_id : ℕ) (e : CandidateEvidence) (s s' : Store) (i : ℕ)
    → candidate_evidence e ≡ ok e
    → add_candidate_evidence run_item_id candidate_id e s ≡ ok (i, s')
    → get_candidate_evidence i s' ≡ ok e
unfolding add_candidate_evidence get_candidate_evidence
get_candidate_evidence-add run_item_id candidate_id e s s' i valid h =
    elim (Bool-cases (refers_to_result run_item_id candidate_id s)) [
      | inr none_there ↦ absurd (ground (arith, none_there, h))
      | inl there ↦
          let n = next_id (map evidence_id_of s.evidence) in
          let id : i ≡ n = ground (arith, there, h) in
          let rows : s'.evidence ≡ evidence_row n run_item_id candidate_id e ∷ s.evidence =
            ground (arith, there, h) in
          rw (rows, id, beq_self n)
            (evidence_of_row-evidence_row n run_item_id candidate_id e valid)
    ]
