-- ===== src/Downloaders/Paths.antt =====
-- src/tuntu/downloaders/clouddrive.py: remote paths.
pub mod Normal
pub mod Within
use tuntu.Prelude.{
  ℕ, Bool, true, false, not, ◌&&◌, ◌||◌, Option, none, some, List, [], ◌∷◌, ◌++◌, any, keep, Text,
  codes, slash, starts_with, rstrip_slash, is_empty, ◌==◌, nat_eq, list_eq, if◌then◌else◌,
}
use tuntu.Errors.{Result, ok, err}
use tuntu.Downloaders.Client.{Reply, answers, raises, ClientError, other, ◌>>=◌}
use tuntu.Magnet.{normalize_btih}

abbrev pub backslash : ℕ
backslash = 92

abbrev pub cons_first : ℕ → List Text → List Text
cons_first c [] = (c ∷ []) ∷ []
cons_first c (p ∷ ps) = (c ∷ p) ∷ ps

-- `path.split("/")`
abbrev pub split_slash : Text → List Text
split_slash [] = [] ∷ []
split_slash (c ∷ s) =
    let rest = split_slash s in if c == slash then [] ∷ rest else cons_first c rest

-- `"/".join(parts)`
abbrev pub join_slash : List Text → Text
join_slash [] = []
join_slash (p ∷ []) = p
join_slash (p ∷ q ∷ ps) = p ++ slash ∷ join_slash (q ∷ ps)

-- `part in {".", ".."}`
abbrev pub is_dots : Text → Bool
is_dots part = part == b'.' ∷ [] || part == b'.' ∷ b'.' ∷ []

abbrev pub is_part : Text → Bool
is_part part = not (is_empty part)

abbrev pub has_backslash : Text → Bool
has_backslash path = any (λ (c : ℕ). c == backslash) path

abbrev pub invalid_path : ClientError
invalid_path = other "invalid_path"

-- `_normalize_absolute_path`. An empty path does not start with "/".
unfoldable pub normalize_absolute_path : Text → Reply Text
normalize_absolute_path path =
    if not (starts_with path (slash ∷ [])) || has_backslash path
    then raises invalid_path
    else if any is_dots (split_slash path)
    then raises invalid_path
    else answers (slash ∷ join_slash (keep is_part (split_slash path)))

-- `f"/{name}" if folder == "/" else f"{folder}/{name}"`
abbrev pub child_of : Text → Text → Text
child_of folder name = if folder == slash ∷ [] then slash ∷ name else folder ++ slash ∷ name

abbrev pub is_bad_part : Text → Bool
is_bad_part part = is_empty part || is_dots part

unfoldable pub is_bad_subdir : Text → Bool
is_bad_subdir subdir =
    (is_empty subdir || starts_with subdir (slash ∷ []))
    || (has_backslash subdir || any is_bad_part (split_slash subdir))

unfoldable pub resolve_destination : Text → Text → Reply Text
resolve_destination root_path profile_subdir = do
  root ← normalize_absolute_path root_path
  if is_bad_subdir profile_subdir
      then raises (other "invalid_profile_subdir")
      else normalize_absolute_path (child_of root profile_subdir)

-- The end of `resolve_task_destination`; what is no BTIH raises `InvalidMagnet`.
abbrev pub task_folder : Reply Text → Result Text → Result (Reply Text)
task_folder (raises e) identity = ok (raises e)
task_folder (answers destination) (err e) = err e
task_folder (answers destination) (ok identity) =
    ok (normalize_absolute_path (child_of destination identity))

unfoldable pub resolve_task_destination : Text → Text → Result (Reply Text)
resolve_task_destination profile_destination btih =
    task_folder (normalize_absolute_path profile_destination) (normalize_btih btih)

-- `path == root or path.startswith(root.rstrip("/") + "/")`
abbrev pub is_within : Text → Text → Bool
is_within root path = path == root || starts_with path (rstrip_slash root ++ slash ∷ [])
