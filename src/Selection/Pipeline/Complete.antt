-- ===== src/Selection/Pipeline/Complete.antt =====
-- The pipeline returns where its sources do, with one result to an item.
use tuntu.Prelude.{
  ◌≡◌, refl, ap, List, [], ◌∷◌, ◌++◌, map, Text, All, All-append, All-map, pair_eq, list_eq, nat_eq,
}
use tuntu.Errors.{Result, ok}
use tuntu.Selection.Content.{ContentItem, identity}
use tuntu.Selection.Candidates.{Candidate}
use tuntu.Selection.Rules.{RuleSet}
use tuntu.Selection.Pipeline.{
  gather, check_owner, search_own, ranked, content_result, ContentResult, CandidateSource,
  DiscoverySource, collect_items, discover_items, discover,
}
use tuntu.Selection.Pipeline.Results.{IsOf, merge_candidates-apart, merge_items-IsSorted}

abbrev pub item_of : ContentResult → ContentItem
item_of r = r.item

-- A call that returns, with what it returns.
abbrev pub Returns {ℓ} : {A : Type ℓ} → (A → Type 0) → Result A → Type ℓ
Returns {A = A} P r = (a : A) × (r ≡ ok a) × P a

module _ {S A : Type 0} (P : A → Type 0) (ask : S → Result (List A)) where
  gather-Returns :
      (ss : List S) → All (λ s. Returns (All P) (ask s)) ss → Returns (All P) (gather ask ss)
  gather-Returns [] h = ([], refl, tt)
  gather-Returns (s ∷ ss) ((xs, asked, p), h) =
      let (ys, rest, q) = gather-Returns ss h in
      (xs ++ ys, rw (asked, rest) refl, All-append P xs ys p q)

module _ (casefold : Text → Text) where
  check_owner-own :
      (item : ContentItem) (cs : List Candidate)
      → All (IsOf (identity casefold item)) cs
      → check_owner casefold item cs ≡ ok cs
  unfolding check_owner
  check_owner-own item [] h = refl
  check_owner-own item (c ∷ cs) h =
      rw
        (
          (pair_eq.equal_iff c.item_identity (identity casefold item)).1 h.0,
          check_owner-own item cs h.1,
        )
        refl

  everything : (items : List ContentItem) → All (λ c. Unit {0}) items
  everything [] = tt
  everything (c ∷ items) = (tt, everything items)

  -- The sources find, for any item, candidates of that item.
  abbrev pub IsSound : CandidateSource → Type 0
  IsSound source =
      (item : ContentItem) → Returns (All (IsOf (identity casefold item))) (source item)

  search_own-Returns :
      (item : ContentItem) (sources : List CandidateSource)
      → All IsSound sources
      → All
          (λ s. Returns (All (IsOf (identity casefold item))) (search_own casefold item s))
          sources
  search_own-Returns item [] h = tt
  search_own-Returns item (s ∷ ss) h =
      let (cs, found, own) = h.0 item in
      ((cs, rw found (check_owner-own item cs own), own), search_own-Returns item ss h.1)

  discover_items-Returns :
      (sources : List CandidateSource) (rules : RuleSet) (items : List ContentItem)
      → All IsSound sources
      → Returns (λ rs. map item_of rs ≡ items) (discover_items casefold sources rules items)
  unfolding discover_items content_result
  discover_items-Returns sources rules [] h = ([], refl, refl)
  discover_items-Returns sources rules (item ∷ items) h =
      let (own, found, of_item) =
        gather-Returns (IsOf (identity casefold item)) (search_own casefold item) sources
          (search_own-Returns item sources h) in
      let (cs, merged, apart) = merge_candidates-apart (identity casefold item) own of_item in
      let (rs, rest, same) = discover_items-Returns sources rules items h in
      (
        content_result casefold item (ranked casefold rules cs) ∷ rs,
        rw (found, merged, rest) refl,
        ap (λ is. item ∷ is) same,
      )

  -- Where the discovery sources return and the candidate sources return candidates of the item that
  -- they are asked for, discover returns, with one result to each merged item, in their order.
  pub discover_total :
      (discovery : List DiscoverySource) (sources : List CandidateSource) (rules : RuleSet)
      (scope : Text)
      → All (λ s. Returns (λ items. Unit {0}) (s scope)) discovery
      → All IsSound sources
      → (items : List ContentItem) × (results : List ContentResult) × (collect_items casefold
            discovery scope
          ≡ ok items)
        × (discover casefold discovery sources rules scope ≡ ok results)
        × (map item_of results ≡ items)
  unfolding discover collect_items
  discover_total discovery sources rules scope h k =
      let (found, gathered, _) =
        gather-Returns (λ c. Unit {0}) (λ (s : DiscoverySource). s scope) discovery
          (All-map discovery (λ s (items, e, u). (items, e, everything items)) h) in
      let (items, merged, _, _, _) = merge_items-IsSorted casefold found in
      let (results, done, same) = discover_items-Returns sources rules items k in
      (items, results, rw (gathered, merged) refl, rw (gathered, merged, done) refl, same)
