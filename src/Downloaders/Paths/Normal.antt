-- ===== src/Downloaders/Paths/Normal.antt =====
-- Normal paths: "/" and the names between the slashes.
use tuntu.Prelude.{
  ℕ, ◌≡◌, ◌≢◌, any-append, refl, sym, ap, ◌∙◌, subst, inl, inr, Bool, true, false, not, ◌||◌, List,
  [], ◌∷◌, ◌++◌, any, keep, All, All-map, All→any_false, Text, slash, starts_with, ◌==◌, nat_eq,
  list_eq, arith, Bool-cases,
}
use tuntu.Downloaders.Client.{answers, raises}
use tuntu.Downloaders.Paths.{
  split_slash, join_slash, cons_first, is_dots, is_part, has_backslash, backslash, invalid_path,
  normalize_absolute_path,
}

-- A part of a path: not empty, no slash, no backslash, neither "." nor "..".
pub record IsName (p : Text) : Type 0 where
  pub part : is_part p ≡ true
  pub plain : any (λ (c : ℕ). c == slash) p ≡ false
  pub clean : has_backslash p ≡ false
  pub dots : is_dots p ≡ false

abbrev pub absolute : List Text → Text
absolute names = slash ∷ join_slash names

abbrev pub IsPath : Text → Type 0
IsPath path = (names : List Text) × All IsName names × (path ≡ absolute names)

split-append :
    (p s : Text)
    → any (λ (c : ℕ). c == slash) p ≡ false
    → split_slash (p ++ slash ∷ s) ≡ p ∷ split_slash s
split-append [] s h = refl
split-append (c ∷ p) s h = elim (Bool-cases (c == slash)) [
  | inl e ↦ absurd (ground arith)
  | inr e ↦ rw e (ap (cons_first c) (split-append p s (rw e at h)))
]

pub split_plain : (p : Text) → any (λ (c : ℕ). c == slash) p ≡ false → split_slash p ≡ p ∷ []
split_plain [] h = refl
split_plain (c ∷ p) h = elim (Bool-cases (c == slash)) [
  | inl e ↦ absurd (ground arith)
  | inr e ↦ rw e (ap (cons_first c) (split_plain p (rw e at h)))
]

-- Splitting undoes joining.
pub split-join :
    (p : Text) (ps : List Text) → All IsName (p ∷ ps) → split_slash (join_slash (p ∷ ps)) ≡ p ∷ ps
split-join p [] h = split_plain p h.0.plain
split-join p (q ∷ ps) h =
    split-append p (join_slash (q ∷ ps)) h.0.plain ∙ ap (λ r. p ∷ r) (split-join q ps h.1)

-- Joining undoes splitting.
join-cons_first : (c : ℕ) (ps : List Text) → join_slash (cons_first c ps) ≡ c ∷ join_slash ps
join-cons_first c [] = refl
join-cons_first c (p ∷ []) = refl
join-cons_first c (p ∷ q ∷ ps) = refl

pub split_ne_nil : (s : Text) → (p : Text) × (ps : List Text) × (split_slash s ≡ p ∷ ps)
split_ne_nil [] = ([], [], refl)
split_ne_nil (c ∷ s) =
    let (p, ps, e) = split_ne_nil s in
    elim (Bool-cases (c == slash)) [
      | inl h ↦ ([], split_slash s, rw h refl)
      | inr h ↦ (c ∷ p, ps, rw (h, e) refl)
    ]

is_slash : (c : ℕ) → (c == slash) ≡ true → slash ≡ c
is_slash c h = ground arith

pub join-split : (s : Text) → join_slash (split_slash s) ≡ s
join-split [] = refl
join-split (c ∷ s) =
    let (p, ps, e) = split_ne_nil s in
    elim (Bool-cases (c == slash)) [
      | inl h ↦
          rw (h, e)
            (ap (λ t. slash ∷ t) (ap join_slash (sym e) ∙ join-split s)
              ∙ ap (λ d. d ∷ s) (is_slash c h))
      | inr h ↦ rw h (join-cons_first c (split_slash s) ∙ ap (λ t. c ∷ t) (join-split s))
    ]

-- No slash and no backslash.
abbrev pub IsClean : Text → Type 0
IsClean p = (any (λ (c : ℕ). c == slash) p ≡ false) × (has_backslash p ≡ false)

cons_first-IsClean :
    (c : ℕ) (ps : List Text)
    → (c == slash) ≡ false
    → (c == backslash) ≡ false
    → All IsClean ps
    → All IsClean (cons_first c ps)
cons_first-IsClean c [] h k t = ((ground arith, ground arith), tt)
cons_first-IsClean c (p ∷ ps) h k t = ((ground arith, ground arith), t.1)

-- The parts of a text have no slash, and no backslash where the text has none.
pub split-IsClean : (s : Text) → has_backslash s ≡ false → All IsClean (split_slash s)
split-IsClean [] h = ((refl, refl), tt)
split-IsClean (c ∷ s) h =
    let rest = split-IsClean s (ground arith) in
    elim (Bool-cases (c == slash)) [
      | inl e ↦ rw e ((refl, refl), rest)
      | inr e ↦ rw e (cons_first-IsClean c (split_slash s) e (ground arith) rest)
    ]

keep_names : (ns : List Text) → All IsName ns → keep is_part ns ≡ ns
keep_names [] h = refl
keep_names (n ∷ ns) h = rw (h.0.part) (ap (λ r. n ∷ r) (keep_names ns h.1))

keep-split-join : (ns : List Text) → All IsName ns → keep is_part (split_slash (join_slash ns)) ≡ ns
keep-split-join [] h = refl
keep-split-join (n ∷ ns) h = ap (keep is_part) (split-join n ns h) ∙ keep_names (n ∷ ns) h

-- The names that are kept of any text that passes the tests.
pub kept-IsName :
    (ps : List Text) → All IsClean ps → any is_dots ps ≡ false → All IsName (keep is_part ps)
kept-IsName [] h k = tt
kept-IsName (p ∷ ps) h k = elim (Bool-cases (is_part p)) [
  | inl e ↦ rw e (
    record { part = e; plain = h.0.0; clean = h.0.1; dots = ground arith },
    kept-IsName ps h.1 (ground arith),
  )
  | inr e ↦ rw e (kept-IsName ps h.1 (ground arith))
]

absolute_no_backslash : (ns : List Text) → All IsName ns → has_backslash (join_slash ns) ≡ false
absolute_no_backslash [] h = refl
absolute_no_backslash (n ∷ []) h = h.0.clean
absolute_no_backslash (n ∷ m ∷ ns) h =
    any-append (λ (c : ℕ). c == backslash) n (slash ∷ join_slash (m ∷ ns))
    ∙ ground (arith, h.0.clean, absolute_no_backslash (m ∷ ns) h.1)

split_join_no_dots :
    (ns : List Text) → All IsName ns → any is_dots (split_slash (join_slash ns)) ≡ false
split_join_no_dots [] h = refl
split_join_no_dots (n ∷ ns) h =
    ap (any is_dots) (split-join n ns h)
    ∙ All→any_false is_dots (n ∷ ns) (All-map (n ∷ ns) (λ p named. named.dots) h)

-- A path of names is normal already.
pub normalize_absolute_path-absolute :
    (ns : List Text) → All IsName ns → normalize_absolute_path (absolute ns) ≡ answers (absolute ns)
unfolding normalize_absolute_path
normalize_absolute_path-absolute ns h =
    rw (absolute_no_backslash ns h, split_join_no_dots ns h, keep-split-join ns h) refl

raises_ne : (p : Text) → raises invalid_path ≢ answers p
raises_ne p h = cc

same_answer : (p q : Text) → answers p ≡ answers q → p ≡ q
same_answer p q h = cc

abbrev refuses : Text → Bool
refuses path = not (starts_with path (slash ∷ [])) || has_backslash path

kept_of :
    (path : Text)
    → refuses path ≡ false
    → any is_dots (split_slash path) ≡ false
    → All IsName (keep is_part (split_slash path))
kept_of path h k = kept-IsName (split_slash path) (split-IsClean path (ground arith)) k

-- What `_normalize_absolute_path` returns is "/" or names with slashes before them, and a second
-- call returns it unchanged.
pub normalize_absolute_path-IsPath :
    (path : Text) {p : Text}
    → normalize_absolute_path path ≡ answers p
    → IsPath p × (normalize_absolute_path p ≡ answers p)
unfolding normalize_absolute_path
normalize_absolute_path-IsPath path {p = p} h = elim (Bool-cases (refuses path)) [
  | inl bad ↦ absurd (raises_ne p (rw bad at h))
  | inr good ↦ elim (Bool-cases (any is_dots (split_slash path))) [
    | inl bad ↦ absurd (raises_ne p (rw (good, bad) at h))
    | inr clean ↦
        let names = keep is_part (split_slash path) in
        let named : All IsName names = kept_of path good clean in
        let same : absolute names ≡ p = same_answer (absolute names) p (rw (good, clean) at h) in
        (
          (names, named, sym same),
          subst (λ q. normalize_absolute_path q ≡ answers q) same
              (normalize_absolute_path-absolute names named),
        )
  ]
]
