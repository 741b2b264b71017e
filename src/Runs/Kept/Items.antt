-- ===== src/Runs/Kept/Items.antt =====
-- What `_process_item` keeps.
use tuntu.Prelude.{ℕ, suc, ◌≡◌, refl, List, [], ◌∷◌, Text, insert, list_eq, nat_eq}
use tuntu.Errors.{Result, ok, err, OnOk}
use tuntu.Db.Tables.{Db}
use tuntu.Db.Session.{read}
use tuntu.Db.Items.{Store}
use tuntu.Selection.Evidence.{CandidateEvidence}
use tuntu.Selection.Content.{ContentItem}
use tuntu.Selection.Candidates.{Candidate}
use tuntu.Selection.Rules.{RuleSet, Evaluation}
use tuntu.Providers.Runner.{ProviderOutcome, ProviderBatch}
use tuntu.Runs.Stats.{Stats, aggregate}
use tuntu.Runs.Settings.{Snapshot}
use tuntu.Runs.State.{
  Environment, Source, RunState, committed, stored, on_core, tell, next_call, ask_all, note_batch,
}
use tuntu.Runs.Actions.{Keeps, >>=-Keeps, pure-Keeps, change-Keeps}
use tuntu.Runs.Items.{accepted_of, count_result, save_evidence, save_evaluations, save_item}
use tuntu.Runs.Kept.{
  SameDownloads, IsApart, upsert_content-IsApart, upsert_candidate-IsApart, add_run_item-IsApart,
  add_candidate_evidence-IsApart, add_evaluation-IsApart,
}

-- The counters that the processing of one item leaves alone.
abbrev pub SameTotals : Stats → Stats → Type 0
SameTotals s t =
    (t.items_discovered ≡ s.items_discovered)
    × (t.items_processed ≡ s.items_processed)
    × (t.item_failures ≡ s.item_failures)

-- A property that outlasts changes of other tables and other counters, calls, and what is noted of a
-- source.
pub record IsKept (P : RunState → Type 0) : Type 0 where
  pub rows :
      (s : RunState) (store : Store)
      → SameDownloads s.store store
      → P s
      → P (record s { store = store })
  pub counts :
      (s : RunState) (stats : Stats)
      → SameTotals s.stats stats
      → P s
      → P (record s { stats = stats })
  pub calls : (s : RunState) (calls : ℕ) → P s → P (record s { calls = calls })
  pub notes :
      (s : RunState) (outcomes : List ProviderOutcome)
      → P s
      → P (record s { sources = aggregate outcomes s.sources })

module _ (P : RunState → Type 0) (k : IsKept P) where
  committed-kept :
      {A : Type 0} (s : RunState) (r : Result (A × Store))
      → OnOk (λ p. SameDownloads s.store p.1) r
      → P s
      → P (committed s r).1
  committed-kept s (ok (a, store)) same p = k.rows s store same p
  committed-kept s (err e) same p = p

  pub stored-Keeps :
      {A : Type 0} (body : Store → Result (A × Store)) → IsApart body → Keeps P (stored body)
  unfolding stored
  stored-Keeps body apart s p = committed-kept s (body s.store) (apart s.store) p

  pub read-Keeps : {A : Type 0} (f : Db → A) → Keeps P (on_core (read f))
  unfolding on_core
  read-Keeps f s p = k.rows s _ (refl, refl) p

  pub tell-Keeps : (f : Stats → Stats) → ((t : Stats) → SameTotals t (f t)) → Keeps P (tell f)
  tell-Keeps f same = change-Keeps P _ (λ s p. k.counts s (f s.stats) (same s.stats) p)

  pub next_call-Keeps : Keeps P next_call
  unfolding next_call
  next_call-Keeps s p = k.calls s (suc s.calls) p

  pub ask_all-Keeps :
      {Q A : Type 0} (sources : List (Source Q A)) (question : Q)
      → Keeps P (ask_all sources question)
  unfolding ask_all
  ask_all-Keeps sources question s p = k.calls _ (suc s.calls) (k.rows s _ (refl, refl) p)

  pub note_batch-Keeps : {A : Type 0} (batch : ProviderBatch A) → Keeps P (note_batch batch)
  unfolding note_batch
  note_batch-Keeps batch =
      change-Keeps P _ λ s p. k.notes _ batch.outcomes (k.counts s _ (refl, refl, refl) p)

  save_evidence-Keeps :
      (run_item_id candidate_id : ℕ) (es : List CandidateEvidence)
      → Keeps P (save_evidence run_item_id candidate_id es)
  unfolding save_evidence
  save_evidence-Keeps run_item_id candidate_id [] = pure-Keeps P tt
  save_evidence-Keeps run_item_id candidate_id (e ∷ es) =
      >>=-Keeps P _ _ (stored-Keeps _ (add_candidate_evidence-IsApart run_item_id candidate_id e))
        λ _. save_evidence-Keeps run_item_id candidate_id es

  save_evaluations-Keeps :
      (casefold : Text → Text) (run_item_id : ℕ) (es : List Evaluation) (ids : List (Text × ℕ))
      → Keeps P (save_evaluations casefold run_item_id es ids)
  unfolding save_evaluations
  save_evaluations-Keeps casefold run_item_id [] ids = pure-Keeps P ids
  save_evaluations-Keeps casefold run_item_id (e ∷ es) ids =
      >>=-Keeps P _ _ (stored-Keeps _ (upsert_candidate-IsApart casefold e.candidate.btih))
        λ candidate_id.
          >>=-Keeps P _ _ (save_evidence-Keeps run_item_id candidate_id e.candidate.evidence) λ _.
            >>=-Keeps P _ _
              (stored-Keeps _
                (add_evaluation-IsApart run_item_id candidate_id e.accepted e.reasons))
              λ _.
                save_evaluations-Keeps casefold run_item_id es
                  (insert e.candidate.btih candidate_id ids)

  count_result-totals :
      (es accepted : List Evaluation) (s : Stats) → SameTotals s (count_result es accepted s)
  count_result-totals [] accepted s = (refl, refl, refl)
  count_result-totals (e ∷ es) [] s = (refl, refl, refl)
  count_result-totals (e ∷ es) (a ∷ as') s = (refl, refl, refl)

  pub save_item-Keeps :
      (env : Environment) (runs : List ℕ) (run_id profile_id : ℕ)
      (sources : List (Source ContentItem Candidate)) (rules : RuleSet) (snapshot : Snapshot)
      (content : ContentItem) (es : List Evaluation)
      → Keeps P (save_item env runs run_id profile_id sources rules snapshot content es)
  unfolding save_item
  save_item-Keeps env runs run_id profile_id sources rules snapshot content es =
      >>=-Keeps P _ _ (tell-Keeps _ (count_result-totals es (accepted_of es))) λ _.
        >>=-Keeps P _ _ (stored-Keeps _ (upsert_content-IsApart env.urls.casefold content))
          λ content_id.
            >>=-Keeps P _ _
              (stored-Keeps _ (add_run_item-IsApart runs run_id content_id _ content.rankings))
              λ run_item_id.
                >>=-Keeps P _ _ (save_evaluations-Keeps env.urls.casefold run_item_id es []) λ ids.
                  >>=-Keeps P _ _ (tell-Keeps _ (λ t. (refl, refl, refl))) (λ _. pure-Keeps P _)
