-- ===== src/Magnet.antt =====
-- src/tuntu/magnet.py. `urllib.parse` and `str.casefold` are parameters.
pub mod Normal
pub mod Hashes
pub mod Parsed
use tuntu.Prelude.{
  ℕ, zero, suc, ◌+◌, ◌-◌, ◌*◌, ◌/◌, ◌%◌, Bool, true, false, not, ◌&&◌, ◌||◌, Option, none, some,
  List, [], ◌∷◌, ◌++◌, map, length, Text, codes, is_empty, leb, ltb, ◌==◌, nat_eq, list_eq,
  if◌then◌else◌, all,
}
use tuntu.Errors.{Result, ok, err, invalid_magnet, ◌>>=◌}

-- What the code calls in the standard library and does not define.
pub record Urls : Type 0 where
  -- `urlsplit`: the scheme and the query; `none` is ValueError.
  pub urlsplit : Text → Option (Text × Text)
  -- `parse_qsl(query, keep_blank_values=True)`
  pub parse_qsl : Text → List (Text × Text)
  -- `urlencode(parameters, doseq=True)`
  pub urlencode : List (Text × Text) → Text
  pub casefold : Text → Text

pub record Magnet : Type 0 where
  pub btih : Text
  pub parameters : List (Text × Text)

abbrev pub between : ℕ → ℕ → ℕ → Bool
between lo hi c = leb lo c && leb c hi

-- `c.isspace()`
abbrev pub is_space : ℕ → Bool
is_space c =
    between 9 13 c
    || (between 28 32 c
        || (c == 133
            || (c == 160
                || (c == 5760
                    || (between 8192 8202 c
                        || (c == 8232
                            || (c == 8233 || (c == 8239 || (c == 8287 || c == 12288)))))))))

lstrip : Text → Text
lstrip [] = []
lstrip (c ∷ s) = let rest = lstrip s in if is_space c then rest else c ∷ s

rstrip : Text → Text
rstrip [] = []
rstrip (c ∷ s) = elim (rstrip s) [ [] ↦ if is_space c then [] else c ∷ [] | d ∷ r ↦ c ∷ d ∷ r ]

-- `value.strip()`
unfoldable pub strip : Text → Text
unfolding lstrip rstrip
strip s = rstrip (lstrip s)

-- `[0-9a-fA-F]`
abbrev pub is_hex : ℕ → Bool
is_hex c = between b'0' b'9' c || (between b'a' b'f' c || between b'A' b'F' c)

-- `[A-Z2-7a-z]`
abbrev pub is_base32 : ℕ → Bool
is_base32 c = between b'A' b'Z' c || (between b'2' b'7' c || between b'a' b'z' c)

-- `casefold` and `upper` of ASCII letters
abbrev pub lower : ℕ → ℕ
lower c = if between b'A' b'Z' c then c + 32 else c

abbrev pub upper : ℕ → ℕ
upper c = if between b'a' b'z' c then c - 32 else c

-- The value of an upper-case Base32 digit.
abbrev pub base32_value : ℕ → ℕ
base32_value c = if leb b'A' c then c - b'A' else c - b'2' + 26

-- `acc.to_bytes(5, "big")`
abbrev pub to_bytes : ℕ → List ℕ
to_bytes n =
    (n / 4294967296 % 256)
    ∷ (n / 16777216 % 256)
    ∷ (n / 65536 % 256)
    ∷ (n / 256 % 256)
    ∷ (n % 256)
    ∷ []

abbrev pub push : ℕ → ℕ → ℕ
push acc c = acc * 32 + base32_value c

-- `base64.b32decode`, eight digits at a time.
pub b32decode : Text → List ℕ
b32decode (a ∷ b ∷ c ∷ d ∷ e ∷ f ∷ g ∷ h ∷ rest) =
    to_bytes (push (push (push (push (push (push (push (push 0 a) b) c) d) e) f) g) h)
    ++ b32decode rest
b32decode _ = []

abbrev pub hex_digit : ℕ → ℕ
hex_digit n = if ltb n 10 then b'0' + n else n - 10 + b'a'

-- `decoded.hex()`
pub hex : List ℕ → Text
hex [] = []
hex (b ∷ bs) = hex_digit (b / 16) ∷ hex_digit (b % 16) ∷ hex bs

-- `decoded` is 20 bytes for 32 digits; the test is the source's.
decode_base32 : Text → Result Text
decode_base32 candidate =
    let decoded = b32decode (map upper candidate) in
    if length decoded == 20 then ok (hex decoded) else err invalid_magnet

pub normalize : Text → Result Text
unfolding decode_base32
normalize candidate =
    if length candidate == 40 && all is_hex candidate
    then ok (map lower candidate)
    else if not (length candidate == 32 && all is_base32 candidate)
    then err invalid_magnet
    else decode_base32 candidate

unfoldable pub normalize_btih : Text → Result Text
unfolding normalize strip b32decode hex
normalize_btih value = normalize (strip value)

unfoldable pub before_colon : ℕ → Option (Text × Text) → Option (Text × Text)
before_colon c none = none
before_colon c (some (a, b)) = some (c ∷ a, b)

-- `s.partition(":")`: the parts, if there is a separator.
unfoldable pub partition_colon : Text → Option (Text × Text)
unfolding before_colon
partition_colon [] = none
partition_colon (c ∷ s) =
    let rest = partition_colon s in if c == b':' then some ([], s) else before_colon c rest

-- `{normalize_btih(value) for value in raw_btih_values}`, and the test that it has one element.
unfoldable pub agree : Text → List Text → Result Text
agree btih [] = ok btih
agree btih (raw ∷ rest) = do
  other ← normalize_btih raw
  agreed ← agree btih rest
  if other == btih then ok agreed else err invalid_magnet

unfoldable pub one_btih : List Text → Result Text
one_btih [] = err invalid_magnet
one_btih (raw ∷ rest) = do btih ← normalize_btih raw; agree btih rest

abbrev pub plain_uri : Text → Text
plain_uri btih = codes "magnet:?xt=urn:btih:" ++ btih

module _ (u : Urls) where
  -- The hash of a pair, if it is an `xt=urn:btih:…`; `none` is a plain parameter.
  unfoldable pub after_urn : Option (Text × Text) → Option Text
  after_urn none = none
  after_urn (some (kind, hash)) = if u.casefold kind == codes "btih" then some hash else none

  unfoldable pub after_xt : Option (Text × Text) → Option Text
  unfolding after_urn
  after_xt none = none
  after_xt (some (prefix, rest)) =
      if u.casefold prefix == codes "urn" then after_urn (partition_colon rest) else none

  unfoldable pub raw_btih : Text × Text → Option Text
  unfolding after_xt
  raw_btih (key, value) =
      if not (u.casefold key == codes "xt") then none else after_xt (partition_colon value)

  -- The loop over the query: the hashes and the other parameters, each in order.
  unfoldable pub split_pairs : List (Text × Text) → List Text × List (Text × Text)
  split_pairs [] = ([], [])
  split_pairs (pair ∷ rest) =
      let (hashes, parameters) = split_pairs rest in
      elim (raw_btih pair) [
        | none ↦ (hashes, pair ∷ parameters)
        | some hash ↦ (hash ∷ hashes, parameters)
      ]

  parse_split : Option (Text × Text) → Result Magnet
  parse_split none = err invalid_magnet
  parse_split (some (scheme, query)) =
      let (hashes, parameters) = split_pairs (u.parse_qsl query) in
      if not (u.casefold scheme == codes "magnet")
      then err invalid_magnet
      else (do btih ← one_btih hashes; ok (record { btih = btih; parameters = parameters }))

  unfoldable pub parse_magnet : Text → Result Magnet
  unfolding parse_split
  parse_magnet uri = parse_split (u.urlsplit uri)

  unfoldable pub canonical_uri : Magnet → Text
  canonical_uri m =
      if is_empty m.parameters
      then plain_uri m.btih
      else plain_uri m.btih ++ codes "&" ++ u.urlencode m.parameters
