-- ===== src/Selection/Ranking/Best.antt =====
-- What is chosen from sorted evaluations.
use tuntu.Prelude.{
  ◌≡◌, ◌⊎◌, inl, inr, refl, sym, subst, Bool, true, false, Option, none, some, List, [], ◌∷◌, first,
  Text, All, All-map, Pairwise, arith, if◌then◌else◌, Bool-cases, IsOrder, leb-IsOrder, lex-IsOrder,
  by-IsOrder, converse-IsOrder, list_le-IsOrder, text_le-IsOrder, In,
}
use tuntu.Selection.Candidates.{Candidate}
use tuntu.Selection.Rules.{Evaluation}
use tuntu.Selection.Ranking.{
  key_le, candidate_sort_key, evaluation_sort_key, evaluation_le, select_candidate, candidate_of,
}

pub key_le-IsOrder : IsOrder key_le
key_le-IsOrder = lex-IsOrder leb-IsOrder (
    lex-IsOrder (converse-IsOrder leb-IsOrder) (
      lex-IsOrder leb-IsOrder
        (lex-IsOrder leb-IsOrder (lex-IsOrder text_le-IsOrder (list_le-IsOrder text_le-IsOrder)))))

pub evaluation_le-IsOrder : (casefold : Text → Text) → IsOrder (evaluation_le casefold)
unfolding evaluation_le
evaluation_le-IsOrder casefold =
    by-IsOrder (evaluation_sort_key casefold) (lex-IsOrder leb-IsOrder key_le-IsOrder)

module _ (casefold : Text → Text) where
  -- Not accepted, or no better than this candidate.
  abbrev pub NoBetter : Candidate → Evaluation → Type 0
  NoBetter c e =
      (e.accepted ≡ false)
      ⊎ (key_le (candidate_sort_key casefold c) (candidate_sort_key casefold e.candidate) ≡ true)

  -- Nothing is chosen where nothing is accepted; otherwise what is chosen is accepted, and no other
  -- accepted candidate has a smaller key.
  abbrev pub IsChoice : List Evaluation → Option Candidate → Type 0
  IsChoice es none = All (λ (e : Evaluation). e.accepted ≡ false) es
  IsChoice es (some c) =
      ((e : Evaluation) × In e es × (e.accepted ≡ true) × (e.candidate ≡ c)) × All (NoBetter c) es

  below_accepted :
      (e z : Evaluation)
      → e.accepted ≡ true
      → evaluation_le casefold e z ≡ true
      → NoBetter e.candidate z
  unfolding evaluation_le evaluation_sort_key
  below_accepted e z own h = elim (Bool-cases z.accepted) [
    | inl good ↦ inr (ground (arith, own, good, h))
    | inr bad ↦ inl bad
  ]

  later :
      (e : Evaluation) (es : List Evaluation) (o : Option Candidate)
      → e.accepted ≡ false
      → IsChoice es o
      → IsChoice (e ∷ es) o
  later e es none bad h = (bad, h)
  later e es (some c) bad ((d, there, good, same), rest) =
      ((d, inr there, good, same), (inl bad, rest))

  pub chosen-IsChoice :
      (es : List Evaluation)
      → Pairwise (λ d e. evaluation_le casefold d e ≡ true) es
      → IsChoice es (select_candidate es)
  unfolding select_candidate
  chosen-IsChoice [] s = tt
  chosen-IsChoice (e ∷ es) s =
      let found = first (λ (d : Evaluation). d.accepted) es in
      elim (Bool-cases e.accepted) [
        | inl good ↦
            subst (λ (b : Bool). IsChoice (e ∷ es) (candidate_of (if b then some e else found)))
              (sym good)
              (
                (e, inl refl, good, refl),
                (
                  below_accepted e e good (self e),
                  All-map es (λ z k. below_accepted e z good k) s.0,
                ),
              )
        | inr bad ↦
            subst (λ (b : Bool). IsChoice (e ∷ es) (candidate_of (if b then some e else found)))
              (sym bad) (later e es (select_candidate es) bad (chosen-IsChoice es s.1))
      ]
    where
      self : (e : Evaluation) → evaluation_le casefold e e ≡ true
      self e = elim ((evaluation_le-IsOrder casefold).total e e) [ inl h ↦ h | inr h ↦ h ]
