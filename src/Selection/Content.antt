-- ===== src/Selection/Content.antt =====
-- src/tuntu/models.py: `ContentItem`. Of the metadata each value is the text of its JSON.
use tuntu.Prelude.{
  ℕ, Bool, not, ◌||◌, List, [], ◌∷◌, ◌++◌, map, any, Text, length, is_empty, ltb, leb, text_le,
  insert, sorted, lex, by, ◌==◌, nat_eq, list_eq, pair_eq, if◌then◌else◌,
}
use tuntu.Errors.{Result, ok, err, value_error}
use tuntu.Magnet.{strip}
use tuntu.Selection.Evidence.{RankingEvidence, ranking_beq, is_blank}

pub record ContentItem : Type 0 where
  pub namespace : Text
  pub raw_key : Text
  pub normalized_key : Text
  pub rankings : List RankingEvidence
  pub title : Text
  pub metadata : List (Text × Text)

-- `ContentItem(…)`
unfoldable pub content_item : ContentItem → Result ContentItem
content_item c =
    if is_blank c.namespace
      || (is_blank c.raw_key || (is_blank c.normalized_key || is_empty c.rankings))
    then err value_error
    else ok c

-- `min` of the ranks; the constructor refuses an item with no ranking.
abbrev least : ℕ → List RankingEvidence → ℕ
least n [] = n
least n (r ∷ rs) = let rest = least n rs in if ltb r.rank rest then r.rank else rest

unfoldable pub best_rank : List RankingEvidence → ℕ
best_rank [] = 0
best_rank (r ∷ rs) = least r.rank rs

-- `for entry in other: if entry not in own: own.append(entry)`
abbrev pub add_new {ℓ} : {A : Type ℓ} → (A → A → Bool) → List A → List A → List A
add_new same own [] = own
add_new same own (x ∷ xs) = add_new same (if any (same x) own then own else own ++ x ∷ []) xs

-- `d.update(e)`
abbrev pub update_all : List (Text × Text) → List (Text × Text) → List (Text × Text)
update_all d [] = d
update_all d ((k, v) ∷ e) = update_all (insert k v d) e

-- `sorted({…}, key=…)`: each text once. The key ends in the text, so the set's order has no part.
abbrev pub unique : List Text → List Text
unique [] = []
unique (t ∷ ts) = let rest = unique ts in if any (λ u. u == t) rest then rest else t ∷ rest

module _ (casefold : Text → Text) where
  abbrev pub folded_le : Text → Text → Bool
  folded_le = by (λ (t : Text). (casefold t, t)) (lex text_le text_le)

  -- The key `(len(title), title.casefold(), title)`
  abbrev pub title_le : Text → Text → Bool
  title_le = by (λ (t : Text). (length t, (casefold t, t))) (lex leb (lex text_le text_le))

  unfoldable pub identity : ContentItem → Text × Text
  identity c = (casefold (strip c.namespace), casefold (strip c.normalized_key))

  unfoldable pub content_sources : ContentItem → List Text
  content_sources c = sorted folded_le (unique (map (λ (r : RankingEvidence). r.source) c.rankings))

  -- The fields after a merge.
  abbrev pub united : ContentItem → ContentItem → ContentItem
  united c other = record c {
    rankings = add_new ranking_beq c.rankings other.rankings;
    title = if not (title_le other.title c.title) then other.title else c.title;
    metadata = update_all c.metadata other.metadata;
  }

  -- `ContentItem.merge_from`
  unfoldable pub merge_content : ContentItem → ContentItem → Result ContentItem
  merge_content c other =
      if not (identity c == identity other) then err value_error else ok (united c other)
