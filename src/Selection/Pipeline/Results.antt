-- ===== src/Selection/Pipeline/Results.antt =====
-- What the pipeline promises of its items and its results.
use tuntu.Prelude.{
  ◌≡◌, refl, sym, inl, inr, ◌∙◌, subst, true, false, Option, none, some, List, [], ◌∷◌, map, any,
  Text, sorted, All, All-append, Pairwise, ◌==◌, pair_eq, list_eq, nat_eq, beq_self, beq_comm,
  Bool-cases, IsOrder, leb-IsOrder, lex-IsOrder, by-IsOrder, text_le-IsOrder, sorted-IsSorted,
  any-sorted, sorted-Pairwise, is_empty, is_some,
}
use tuntu.Errors.{Result, ok, OnOk, OnOk->>=, OnOk-ok, OnOk-all}
use tuntu.Selection.Content.{ContentItem, add_new, identity, best_rank, united, merge_content}
use tuntu.Selection.Candidates.{Candidate, merge_candidate}
use tuntu.Selection.Evidence.{evidence_beq}
use tuntu.Selection.Rules.{RuleSet, Evaluation, evaluate}
use tuntu.Selection.Ranking.{select_candidate, evaluation_le}
use tuntu.Selection.Ranking.Best.{IsChoice, chosen-IsChoice, evaluation_le-IsOrder}
use tuntu.Selection.Pipeline.{
  values, content_le, merge_items, merge_candidates, gather, check_owner, search_own, ranked,
  content_result, status_for, ContentResult, ContentResultStatus, selected, filtered, no_candidate,
  CandidateSource, DiscoverySource, collect_items, discover_items, discover,
}
use tuntu.Selection.Pipeline.Merged.{Merges, merge_all-values}

module _ (casefold : Text → Text) where
  merge_content_same :
      (a b : ContentItem)
      → identity casefold a ≡ identity casefold b
      → merge_content casefold a b ≡ ok (united casefold a b)
  unfolding merge_content
  merge_content_same a b same =
      let equal : (identity casefold a == identity casefold b) ≡ true =
        subst (λ i. (identity casefold a == i) ≡ true) same (beq_self (identity casefold a)) in
      rw equal refl

  merge_content-Merges :
      Merges (λ (c : ContentItem). Unit {0}) (identity casefold) (merge_content casefold)
  unfolding identity
  merge_content-Merges = record {
    succeeds = λ a b p q same. (united casefold a b, merge_content_same a b same, refl, tt);
  }

  content_le-IsOrder : IsOrder (content_le casefold)
  content_le-IsOrder =
      by-IsOrder (λ (c : ContentItem). (best_rank c.rankings, identity casefold c))
        (lex-IsOrder leb-IsOrder (lex-IsOrder text_le-IsOrder text_le-IsOrder))

  everything : (cs : List ContentItem) → All (λ (c : ContentItem). Unit {0}) cs
  everything [] = tt
  everything (c ∷ cs) = (tt, everything cs)

  -- Merging any items succeeds: the merged items are in order of best rank and identity, no two have
  -- one identity, and an identity is there exactly if an item that was merged has it.
  pub merge_items-IsSorted :
      (found : List ContentItem)
      → (items : List ContentItem) × (merge_items casefold found ≡ ok items)
        × Pairwise (λ a b. content_le casefold a b ≡ true) items
        × Pairwise (λ a b. (identity casefold a == identity casefold b) ≡ false) items
        × ((i : Text × Text)
            → any (λ c. identity casefold c == i) items ≡ any (λ c. identity casefold c == i) found)
  unfolding merge_items
  merge_items-IsSorted found =
      let (d, merged, apart, keys) =
        merge_all-values (identity casefold) (merge_content casefold) merge_content-Merges found
          (everything found) in
      (
        sorted (content_le casefold) (values d),
        rw merged refl,
        sorted-IsSorted content_le-IsOrder (values d),
        sorted-Pairwise _ (λ a b h. beq_comm (identity casefold b) (identity casefold a) ∙ h)
            (content_le casefold) (values d) apart,
        λ i. any-sorted (λ c. identity casefold c == i) (content_le casefold) (values d) ∙ keys i,
      )

-- The candidates of one item.
abbrev pub IsOf : Text × Text → Candidate → Type 0
IsOf i c = c.item_identity ≡ i

merge_candidate-Merges :
    (i : Text × Text) → Merges (IsOf i) (λ (c : Candidate). c.btih) merge_candidate
unfolding merge_candidate
merge_candidate-Merges i = record {
  succeeds = λ a b p q same.
      let one : (a.item_identity == b.item_identity) ≡ true =
        subst (λ j. (a.item_identity == j) ≡ true) (p ∙ sym q) (beq_self a.item_identity) in
      let two : (a.btih == b.btih) ≡ true =
        subst (λ j. (a.btih == j) ≡ true) same (beq_self a.btih) in
      (
        record a { evidence = add_new evidence_beq a.evidence b.evidence },
        rw (one, two) refl,
        refl,
        p,
      );
}

pub merge_candidates-apart :
    (i : Text × Text) (own : List Candidate)
    → All (IsOf i) own
    → (cs : List Candidate) × (merge_candidates own ≡ ok cs)
      × Pairwise (λ (a : Candidate) (b : Candidate). (a.btih == b.btih) ≡ false) cs
unfolding merge_candidates
merge_candidates-apart i own h =
    let (d, merged, apart, keys) =
      merge_all-values (λ (c : Candidate). c.btih) merge_candidate (merge_candidate-Merges i) own
        h in
    (values d, rw merged refl, apart)

module _ {S A : Type 0} (P : A → Type 0) (ask : S → Result (List A))
    (each : (s : S) → OnOk (All P) (ask s)) where
  gather-All : (ss : List S) → OnOk (All P) (gather ask ss)
  gather-All [] = tt
  gather-All (s ∷ ss) = OnOk->>= (All P) (All P) (ask s) _ (each s) (λ xs h.
      OnOk->>= (All P) (All P) (gather ask ss) _ (gather-All ss) (λ ys k. All-append P xs ys h k))

-- A result says of its item what it should: the evaluations are of different BTIHs, the selection
-- is a best accepted one, and the status tells which of the three cases it is.
abbrev pub HasStatus : ContentResult → ContentResultStatus → Type 0
HasStatus r no_candidate = r.evaluations ≡ []
HasStatus r filtered = (is_empty r.evaluations ≡ false) × (r.selection ≡ none)
HasStatus r selected = is_some r.selection ≡ true

module _ (casefold : Text → Text) where
  abbrev pub BtihApart : Evaluation → Evaluation → Type 0
  BtihApart a b = (a.candidate.btih == b.candidate.btih) ≡ false

  pub record IsResult (r : ContentResult) : Type 0 where
    pub status : HasStatus r r.status
    pub choice : IsChoice casefold r.evaluations r.selection
    pub apart : Pairwise BtihApart r.evaluations
    pub order : Pairwise (λ a b. evaluation_le casefold a b ≡ true) r.evaluations

  check_owner-IsOf :
      (item : ContentItem) (cs : List Candidate)
      → OnOk (All (IsOf (identity casefold item))) (check_owner casefold item cs)
  unfolding check_owner
  check_owner-IsOf item [] = tt
  check_owner-IsOf item (c ∷ cs) = elim (Bool-cases (c.item_identity == identity casefold item)) [
    | inl same ↦ rw same (
        OnOk->>= (All (IsOf (identity casefold item))) (All (IsOf (identity casefold item)))
          (check_owner casefold item cs) _ (check_owner-IsOf item cs)
          (λ ds h. ((pair_eq.equal_iff c.item_identity (identity casefold item)).0 same, h)))
    | inr other ↦ rw other tt
  ]

  search_own-IsOf :
      (item : ContentItem) (source : CandidateSource)
      → OnOk (All (IsOf (identity casefold item))) (search_own casefold item source)
  search_own-IsOf item source =
      OnOk->>= (λ cs. Unit {0}) (All (IsOf (identity casefold item))) (source item)
        (check_owner casefold item) (OnOk-all (λ cs. Unit {0}) (source item) (λ cs. tt))
        (λ cs h. check_owner-IsOf item cs)

  All-evaluated :
      (rules : RuleSet) (b : Text) (cs : List Candidate)
      → All (λ (c : Candidate). (b == c.btih) ≡ false) cs
      → All (λ (e : Evaluation). (b == e.candidate.btih) ≡ false) (map (evaluate casefold rules) cs)
  unfolding evaluate
  All-evaluated rules b [] h = tt
  All-evaluated rules b (c ∷ cs) h = (h.0, All-evaluated rules b cs h.1)

  evaluated-apart :
      (rules : RuleSet) (cs : List Candidate)
      → Pairwise (λ (a : Candidate) (b : Candidate). (a.btih == b.btih) ≡ false) cs
      → Pairwise BtihApart (map (evaluate casefold rules) cs)
  unfolding evaluate
  evaluated-apart rules [] h = tt
  evaluated-apart rules (c ∷ cs) h =
      (All-evaluated rules c.btih cs h.0, evaluated-apart rules cs h.1)

  ranked-apart :
      (rules : RuleSet) (cs : List Candidate)
      → Pairwise (λ (a : Candidate) (b : Candidate). (a.btih == b.btih) ≡ false) cs
      → Pairwise BtihApart (ranked casefold rules cs)
  ranked-apart rules cs h =
      sorted-Pairwise BtihApart (λ a b k. beq_comm b.candidate.btih a.candidate.btih ∙ k)
        (evaluation_le casefold) (map (evaluate casefold rules) cs) (evaluated-apart rules cs h)

  status_for-HasStatus :
      (item : ContentItem) (es : List Evaluation) (o : Option Candidate)
      → IsChoice casefold es o
      → HasStatus
          (record { item = item; status = status_for es o; evaluations = es; selection = o })
          (status_for es o)
  status_for-HasStatus item [] o h = refl
  status_for-HasStatus item (e ∷ es) none h = (refl, refl)
  status_for-HasStatus item (e ∷ es) (some c) h = refl

  content_result-IsResult :
      (item : ContentItem) (es : List Evaluation)
      → Pairwise BtihApart es
      → Pairwise (λ a b. evaluation_le casefold a b ≡ true) es
      → IsResult (content_result casefold item es)
  unfolding content_result
  content_result-IsResult item es apart order = record {
    status = status_for-HasStatus item es (select_candidate es) (chosen-IsChoice casefold es order);
    choice = chosen-IsChoice casefold es order;
    apart = apart;
    order = order;
  }

  merged_own-IsResult :
      (rules : RuleSet) (item : ContentItem) (own : List Candidate)
      → All (IsOf (identity casefold item)) own
      → OnOk
          (λ cs. IsResult (content_result casefold item (ranked casefold rules cs)))
          (merge_candidates own)
  merged_own-IsResult rules item own h =
      let (cs, merged, apart) = merge_candidates-apart (identity casefold item) own h in
      rw merged (
        content_result-IsResult item (ranked casefold rules cs) (ranked-apart rules cs apart)
          (sorted-IsSorted (evaluation_le-IsOrder casefold) (map (evaluate casefold rules) cs)))

  discover_items-IsResult :
      (sources : List CandidateSource) (rules : RuleSet) (items : List ContentItem)
      → OnOk (All IsResult) (discover_items casefold sources rules items)
  unfolding discover_items
  discover_items-IsResult sources rules [] = tt
  discover_items-IsResult sources rules (item ∷ items) =
      OnOk->>= (All (IsOf (identity casefold item))) (All IsResult)
        (gather (search_own casefold item) sources) _
        (gather-All (IsOf (identity casefold item)) (search_own casefold item)
          (search_own-IsOf item) sources)
        (λ own h.
          OnOk->>= (λ cs. IsResult (content_result casefold item (ranked casefold rules cs)))
            (All IsResult) (merge_candidates own) _ (merged_own-IsResult rules item own h)
            (λ cs r.
              OnOk->>= (All IsResult) (All IsResult) (discover_items casefold sources rules items) _
                (discover_items-IsResult sources rules items) (λ rest k. (r, k))))

  -- Where discover returns, the status of each result is right: no evaluation, none accepted, or a
  -- selection. The evaluations are in order and of different BTIHs, and the selection is an accepted
  -- candidate such that no accepted one has a smaller key.
  pub discover-IsResult :
      (discovery : List DiscoverySource) (sources : List CandidateSource) (rules : RuleSet)
      (scope : Text) {results : List ContentResult}
      → discover casefold discovery sources rules scope ≡ ok results
      → All IsResult results
  unfolding discover
  discover-IsResult discovery sources rules scope h =
      OnOk-ok (All IsResult) (discover casefold discovery sources rules scope)
        (OnOk->>= (λ items. Unit {0}) (All IsResult) (collect_items casefold discovery scope) _
          (OnOk-all (λ items. Unit {0}) (collect_items casefold discovery scope) (λ items. tt))
          (λ items u. discover_items-IsResult sources rules items))
        h
