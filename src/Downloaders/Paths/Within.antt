-- ===== src/Downloaders/Paths/Within.antt =====
-- Destinations lie within the root.
use tuntu.Prelude.{
  ℕ, All-append, length, ◌≡◌, refl, sym, ap, ◌∙◌, subst, inl, inr, Bool, true, false, ◌||◌, List,
  [], ◌∷◌, ◌++◌, append_assoc, any, All, Text, slash, starts_with, rstrip_slash, ◌==◌, nat_eq,
  list_eq, arith, Bool-cases, beq_self,
}
use tuntu.Errors.{Result, ok, err}
use tuntu.Downloaders.Client.{
  Reply, answers, raises, >>=-eq-answers, answers_injective, raises-ne-answers,
}
use tuntu.Magnet.{normalize_btih}
use tuntu.Magnet.Normal.{is_lower_hex, IsBtih, normalize_btih-IsBtih}
use tuntu.Downloaders.Paths.{
  split_slash, join_slash, is_dots, is_part, is_bad_part, is_bad_subdir, backslash, child_of,
  is_within, task_folder, normalize_absolute_path, resolve_destination, resolve_task_destination,
}
use tuntu.Downloaders.Paths.Normal.{
  IsName, IsPath, absolute, split_ne_nil, split_plain, join-split, IsClean, split-IsClean,
  normalize_absolute_path-absolute, normalize_absolute_path-IsPath,
}

rstrip_plain : (p : Text) → any (λ (c : ℕ). c == slash) p ≡ false → rstrip_slash p ≡ p
rstrip_plain [] h = refl
rstrip_plain (c ∷ []) h = ground arith
rstrip_plain (c ∷ d ∷ p) h = rw (rstrip_plain (d ∷ p) (ground arith)) refl

rstrip-append :
    (p : Text) (c : ℕ) (s : Text)
    → rstrip_slash (c ∷ s) ≡ c ∷ s
    → rstrip_slash (p ++ c ∷ s) ≡ p ++ c ∷ s
rstrip-append [] c s h = h
rstrip-append (d ∷ []) c s h = rw h refl
rstrip-append (d ∷ e ∷ p) c s h = rw (rstrip-append (e ∷ p) c s h) refl

rstrip_longer :
    (d c : ℕ) (p : Text) → rstrip_slash (c ∷ p) ≡ c ∷ p → rstrip_slash (d ∷ c ∷ p) ≡ d ∷ c ∷ p
rstrip_longer d c p h = rw h refl

join-append :
    (ns : List Text) (n m : Text) (ms : List Text)
    → join_slash ((n ∷ ns) ++ m ∷ ms) ≡ join_slash (n ∷ ns) ++ slash ∷ join_slash (m ∷ ms)
join-append [] n m ms = refl
join-append (k ∷ ns) n m ms =
    ap (λ t. n ++ slash ∷ t) (join-append ns k m ms)
    ∙ sym (append_assoc n (slash ∷ join_slash (k ∷ ns)) (slash ∷ join_slash (m ∷ ms)))

starts_with-append : (s : Text) (c : ℕ) (t : Text) → starts_with (s ++ c ∷ t) (s ++ c ∷ []) ≡ true
starts_with-append [] c [] = rw (beq_self c) refl
starts_with-append [] c (d ∷ t) = rw (beq_self c) refl
starts_with-append (d ∷ s) c t = rw (beq_self d) (starts_with-append s c t)

-- A name is not empty.
name_cons : (n : Text) → IsName n → (c : ℕ) × (p : Text) × (n ≡ c ∷ p)
name_cons [] v = absurd (ground (arith, v.part))
name_cons (c ∷ p) v = (c, p, refl)

join_cons :
    (n : Text) (ns : List Text) → IsName n → (c : ℕ) × (p : Text) × (join_slash (n ∷ ns) ≡ c ∷ p)
join_cons n [] v = name_cons n v
join_cons n (m ∷ ns) v =
    let (c, p, e) = name_cons n v in
    (c, p ++ slash ∷ join_slash (m ∷ ns), ap (λ t. t ++ slash ∷ join_slash (m ∷ ns)) e)

rstrip-join :
    (n : Text) (ns : List Text)
    → All IsName (n ∷ ns)
    → rstrip_slash (join_slash (n ∷ ns)) ≡ join_slash (n ∷ ns)
rstrip-join n [] h = rstrip_plain n h.0.plain
rstrip-join n (m ∷ ns) h =
    let (c, p, e) = join_cons m ns h.1.0 in
    rw e (
      rstrip-append n slash (c ∷ p)
        (rstrip_longer slash c p (subst (λ t. rstrip_slash t ≡ t) e (rstrip-join m ns h.1))))

rstrip-absolute :
    (n : Text) (ns : List Text)
    → All IsName (n ∷ ns)
    → rstrip_slash (absolute (n ∷ ns)) ≡ absolute (n ∷ ns)
rstrip-absolute n ns h =
    let (c, p, e) = join_cons n ns h.0 in
    subst (λ t. rstrip_slash (slash ∷ t) ≡ slash ∷ t) (sym e)
      (rstrip_longer slash c p (subst (λ t. rstrip_slash t ≡ t) e (rstrip-join n ns h)))

or_right : (a b : Bool) → b ≡ true → (a || b) ≡ true
or_right a b h = ground arith

-- A path with more names lies within.
within-absolute :
    (ns : List Text) (m : Text) (ms : List Text)
    → All IsName ns
    → is_within (absolute ns) (absolute (ns ++ m ∷ ms)) ≡ true
within-absolute [] m ms h = ground arith
within-absolute (n ∷ ns) m ms h =
    rw (rstrip-absolute n ns h, join-append ns n m ms)
      (or_right _ _ (starts_with-append (absolute (n ∷ ns)) slash (join_slash (m ∷ ms))))

child_of_longer : (c : ℕ) (p t : Text) → child_of (slash ∷ c ∷ p) t ≡ slash ∷ c ∷ p ++ slash ∷ t
child_of_longer c p t = refl

child_of-absolute :
    (ns : List Text) (m : Text) (ms : List Text)
    → All IsName ns
    → child_of (absolute ns) (join_slash (m ∷ ms)) ≡ absolute (ns ++ m ∷ ms)
child_of-absolute [] m ms h = refl
child_of-absolute (n ∷ ns) m ms h =
    let (c, p, e) = join_cons n ns h.0 in
    let t = join_slash (m ∷ ms) in
    ap (λ q. child_of (slash ∷ q) t) e
    ∙ (child_of_longer c p t
        ∙ (ap (λ q. slash ∷ q ++ slash ∷ t) (sym e)
            ∙ ap (λ q. slash ∷ q) (sym (join-append ns n m ms))))

-- A child by names is normal already, and within its parent.
child_of-is_within :
    (root : Text) (m : Text) (ms : List Text)
    → IsPath root
    → All IsName (m ∷ ms)
    → (normalize_absolute_path (child_of root (join_slash (m ∷ ms)))
        ≡ answers (child_of root (join_slash (m ∷ ms))))
      × (is_within root (child_of root (join_slash (m ∷ ms))) ≡ true)
child_of-is_within root m ms (ns, named, same) h =
    let joined : child_of root (join_slash (m ∷ ms)) ≡ absolute (ns ++ m ∷ ms) =
      ap (λ r. child_of r (join_slash (m ∷ ms))) same ∙ child_of-absolute ns m ms named in
    (
      subst (λ q. normalize_absolute_path q ≡ answers q) (sym joined)
          (normalize_absolute_path-absolute (ns ++ m ∷ ms) (All-append IsName ns (m ∷ ms) named h)),
      subst (λ q. is_within root q ≡ true) (sym joined)
          (subst (λ r. is_within r (absolute (ns ++ m ∷ ms)) ≡ true) (sym same)
            (within-absolute ns m ms named)),
    )

subdir-IsName : (ps : List Text) → All IsClean ps → any is_bad_part ps ≡ false → All IsName ps
subdir-IsName [] h k = tt
subdir-IsName (p ∷ ps) h k = (
  record { part = ground arith; plain = h.0.0; clean = h.0.1; dots = ground arith },
  subdir-IsName ps h.1 (ground arith),
)

-- A child by a text that splits into names.
child_by-is_within :
    (root sub : Text)
    → IsPath root
    → All IsName (split_slash sub)
    → (normalize_absolute_path (child_of root sub) ≡ answers (child_of root sub))
      × (is_within root (child_of root sub) ≡ true)
child_by-is_within root sub h named =
    let (m, ms, e) = split_ne_nil sub in
    let joined : join_slash (m ∷ ms) ≡ sub = ap join_slash (sym e) ∙ join-split sub in
    subst
      (λ t.
        (normalize_absolute_path (child_of root t) ≡ answers (child_of root t))
        × (is_within root (child_of root t) ≡ true))
      joined (child_of-is_within root m ms h (subst (All IsName) e named))

good_subdir : (sub : Text) → is_bad_subdir sub ≡ false → All IsName (split_slash sub)
unfolding is_bad_subdir
good_subdir sub h =
    subdir-IsName (split_slash sub) (split-IsClean sub (ground arith)) (ground arith)

-- A destination that resolve_destination returns is normal and within the normalized root.
pub resolve_destination-is_within :
    (root_path profile_subdir : Text) {destination : Text}
    → resolve_destination root_path profile_subdir ≡ answers destination
    → (root : Text) × (normalize_absolute_path root_path ≡ answers root)
      × (normalize_absolute_path destination ≡ answers destination)
      × (is_within root destination ≡ true)
unfolding resolve_destination is_bad_subdir
resolve_destination-is_within root_path sub {destination = destination} h =
    let (root, normal, h') = >>=-eq-answers (normalize_absolute_path root_path) _ h in
    elim (Bool-cases (is_bad_subdir sub)) [
      | inl bad ↦ absurd (raises-ne-answers _ destination (rw bad at h'))
      | inr good ↦
          let (again, within) =
            child_by-is_within root sub (normalize_absolute_path-IsPath root_path normal).0
              (good_subdir sub good) in
          let same : child_of root sub ≡ destination =
            answers_injective (child_of root sub) destination (sym again ∙ (rw good at h')) in
          (
            root,
            normal,
            subst (λ q. normalize_absolute_path q ≡ answers q) same again,
            subst (λ q. is_within root q ≡ true) same within,
          )
    ]

hex_plain :
    (k : ℕ) (b : Text)
    → All (λ c. is_lower_hex c ≡ true) b
    → is_lower_hex k ≡ false
    → any (λ (c : ℕ). c == k) b ≡ false
hex_plain k [] h p = refl
hex_plain k (c ∷ b) h p = elim (Bool-cases (c == k)) [
  | inl same ↦ absurd (cc (p, h.0, (nat_eq.equal_iff c k).0 same))
  | inr other ↦ rw other (hex_plain k b h.1 p)
]

long_part : (b : Text) → length b ≡ 40 → is_part b ≡ true
long_part [] h = absurd (omega arith)
long_part (c ∷ b) h = refl

long_dots : (b : Text) → length b ≡ 40 → is_dots b ≡ false
long_dots [] h = refl
long_dots (c ∷ []) h = absurd (omega arith)
long_dots (c ∷ d ∷ []) h = absurd (omega arith)
long_dots (c ∷ d ∷ e ∷ b) h = ground arith

btih-IsName : (b : Text) → IsBtih b → IsName b
btih-IsName b v = record {
  part = long_part b v.forty;
  plain = hex_plain slash b v.digits refl;
  clean = hex_plain backslash b v.digits refl;
  dots = long_dots b v.forty;
}

task_folder-answers :
    (r : Reply Text) (i : Result Text) {destination : Text}
    → task_folder r i ≡ ok (answers destination)
    → (parent identity : Text) × (r ≡ answers parent)
      × (i ≡ ok identity)
      × (normalize_absolute_path (child_of parent identity) ≡ answers destination)
task_folder-answers (raises e) i h = absurd (cc)
task_folder-answers (answers parent) (err e) h = absurd (cc)
task_folder-answers (answers parent) (ok identity) h = (parent, identity, refl, refl, cc)

-- The folder of a task is normal and within the normalized destination of its profile.
pub resolve_task_destination-is_within :
    (profile_destination btih : Text) {destination : Text}
    → resolve_task_destination profile_destination btih ≡ ok (answers destination)
    → (parent : Text) × (normalize_absolute_path profile_destination ≡ answers parent)
      × (normalize_absolute_path destination ≡ answers destination)
      × (is_within parent destination ≡ true)
unfolding resolve_task_destination
resolve_task_destination-is_within profile_destination btih {destination = destination} h =
    let (parent, identity, normal, btih_normal, child) =
      task_folder-answers (normalize_absolute_path profile_destination) (normalize_btih btih) h in
    let name = btih-IsName identity (normalize_btih-IsBtih btih identity btih_normal).0 in
    let (again, within) =
      child_by-is_within parent identity
        (normalize_absolute_path-IsPath profile_destination normal).0
        (subst (All IsName) (sym (split_plain identity name.plain)) (name, tt)) in
    let same : child_of parent identity ≡ destination =
      answers_injective (child_of parent identity) destination (sym again ∙ child) in
    (
      parent,
      normal,
      subst (λ q. normalize_absolute_path q ≡ answers q) same again,
      subst (λ q. is_within parent q ≡ true) same within,
    )
