-- ===== src/Providers/Manual.antt =====
-- src/tuntu/providers/manual.py, and `normalize_jav_identity` of src/tuntu/providers/attributes.py.
-- The functions of `re`, `unicodedata` and `str` that know Unicode are parameters.
use tuntu.Prelude.{
  ℕ, suc, zero, ◌-◌, Option, none, some, List, [], ◌∷◌, ◌++◌, Text, codes, length, ◌==◌, nat_eq,
  if◌then◌else◌,
}
use tuntu.Errors.{Result, ok, ◌>>=◌}
use tuntu.Magnet.{is_space}
use tuntu.Selection.Evidence.{ranking_evidence}
use tuntu.Selection.Content.{ContentItem, content_item}

pub record Codes : Type 0 where
  -- `unicodedata.normalize("NFKC", s)`
  pub nfkc : Text → Text
  -- `_FC2_CODE.fullmatch(s)`: its group
  pub fc2_code : Text → Option Text
  -- `_STANDARD_CODE.fullmatch(s)`: its groups; the second one is of the digits 0 to 9.
  pub standard_code : Text → Option (Text × Text)
  pub upper : Text → Text

-- `s.split()`, with the word before the text.
abbrev end_word : Text → List Text → List Text
end_word [] ws = ws
end_word (c ∷ w) ws = (c ∷ w) ∷ ws

abbrev words_from : Text → Text → List Text
words_from word [] = end_word word []
words_from word (c ∷ s) =
    let after = words_from [] s in
    let within = words_from (word ++ c ∷ []) s in if is_space c then end_word word after else within

abbrev join_words : List Text → Text
join_words [] = []
join_words (w ∷ []) = w
join_words (w ∷ v ∷ ws) = w ++ 32 ∷ join_words (v ∷ ws)

-- `" ".join(s.strip().split())`; splitting leaves out the space at both ends.
unfoldable pub squeezed : Text → Text
squeezed s = join_words (words_from [] s)

abbrev without_zeros : Text → Text
without_zeros [] = []
without_zeros (c ∷ s) = let rest = without_zeros s in if c == b'0' then rest else c ∷ s

abbrev zfill : ℕ → Text → Text
zfill n s = padded n s (n - length s)
  where
    padded : ℕ → Text → ℕ → Text
    padded n s zero = s
    padded n s (suc m) = b'0' ∷ padded n s m

-- `str(int(number)).zfill(3)`, for decimal digits
unfoldable pub three_digits : Text → Text
three_digits number = zfill 3 (without_zeros number)

module _ (library : Codes) (casefold : Text → Text) where
  abbrev standard_or : Text → Text → Option (Text × Text) → Text × Text
  standard_or fallback cleaned none = (casefold fallback, casefold cleaned)
  standard_or fallback cleaned (some (prefix, number)) =
      (codes "jav", library.upper prefix ++ b'-' ∷ three_digits number)

  abbrev fc2_or : Text → Text → Option Text → Text × Text
  fc2_or fallback cleaned (some number) = (codes "jav", codes "FC2-PPV-" ++ number)
  fc2_or fallback cleaned none = standard_or fallback cleaned (library.standard_code cleaned)

  -- `normalize_jav_identity`
  unfoldable pub normalize_jav_identity : Text → Text → Text × Text
  normalize_jav_identity raw_key fallback =
      let cleaned = squeezed (library.nfkc raw_key) in
      fc2_or fallback cleaned (library.fc2_code cleaned)

  -- The item of a key: its ranking and its fields are checked.
  unfoldable pub manual_item : (scope : Text) (rank : ℕ) (raw_key : Text) → Result ContentItem
  manual_item scope rank raw_key = do
    let (namespace, normalized_key) = normalize_jav_identity raw_key (codes "manual")
    ranking ←
        ranking_evidence
          (record { source = codes "manual"; rank = rank; raw_key = raw_key; scope = scope })
    content_item (record {
      namespace = namespace;
      raw_key = raw_key;
      normalized_key = normalized_key;
      rankings = ranking ∷ [];
      title = raw_key;
      metadata = [];
    })

  -- The loop of `ManualDiscoveryProvider.collect`, from a rank on.
  unfoldable pub manual_items : Text → ℕ → List Text → Result (List ContentItem)
  manual_items scope rank [] = ok []
  manual_items scope rank (raw_key ∷ raw_keys) = do
    item ← manual_item scope rank raw_key
    rest ← manual_items scope (suc rank) raw_keys
    ok (item ∷ rest)

  -- `ManualDiscoveryProvider.collect`
  unfoldable pub collect : List Text → Text → Result (List ContentItem)
  collect raw_keys scope = manual_items scope 1 raw_keys
