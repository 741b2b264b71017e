-- ===== src/Downloaders/Snapshot.antt =====
-- The directory snapshots of src/tuntu/downloaders/clouddrive.py.
use tuntu.Prelude.{
  ℕ, ◌+◌, Bool, List, [], ◌∷◌, Text, slash, starts_with, text_le, insert, sorted, length, list_eq,
  nat_eq, if◌then◌else◌, All, arith,
}
use tuntu.Errors.{Result, ok, err, value_error}

-- A size is never negative: `__post_init__` refuses one that is.
pub record FileFact : Type 0 where
  pub path : Text
  pub size : ℕ

-- `FileFact(path, size)`
unfoldable pub file_fact : Text → ℕ → Result FileFact
file_fact path size =
    if starts_with path (slash ∷ [])
    then ok (record { path = path; size = size })
    else err value_error

pub record DirectorySnapshot : Type 0 where
  pub files : List FileFact

abbrev pub path_le : FileFact → FileFact → Bool
path_le f g = text_le f.path g.path

-- `DirectorySnapshot(files)`: the constructor sorts by path.
unfoldable pub directory_snapshot : List FileFact → DirectorySnapshot
directory_snapshot files = record { files = sorted path_le files }

unfoldable pub file_count : DirectorySnapshot → ℕ
file_count s = length s.files

sum_sizes : List FileFact → ℕ
sum_sizes [] = 0
sum_sizes (f ∷ fs) = f.size + sum_sizes fs

unfoldable pub total_size : DirectorySnapshot → ℕ
unfolding sum_sizes
total_size s = sum_sizes s.files

-- The dict comprehension, one `d[file.path] = file.size` after another.
put_sizes : List (Text × ℕ) → List FileFact → List (Text × ℕ)
put_sizes m [] = m
put_sizes m (f ∷ fs) = put_sizes (insert f.path f.size m) fs

unfoldable pub as_size_map : DirectorySnapshot → List (Text × ℕ)
unfolding put_sizes
as_size_map s = put_sizes [] s.files

module _ (P : Text → Type 0) where
  insert-All :
      (k : Text) (v : ℕ) (m : List (Text × ℕ))
      → P k
      → All (λ item. P item.0) m
      → All (λ item. P item.0) (insert k v m)
  insert-All k v [] h t = (h, tt)
  insert-All k v ((j, w) ∷ m) h t = ground (arith, insert-All k v m h t.1)

  put_sizes-All :
      (m : List (Text × ℕ)) (files : List FileFact)
      → All (λ item. P item.0) m
      → All (λ f. P f.path) files
      → All (λ item. P item.0) (put_sizes m files)
  unfolding put_sizes
  put_sizes-All m [] hm hf = hm
  put_sizes-All m (f ∷ fs) hm hf =
      put_sizes-All (insert f.path f.size m) fs (insert-All f.path f.size m hf.0 hm) hf.1

  -- The paths of the map are those of the files.
  pub as_size_map-All :
      (s : DirectorySnapshot) → All (λ f. P f.path) s.files → All (λ item. P item.0) (as_size_map s)
  unfolding as_size_map
  as_size_map-All s h = put_sizes-All [] s.files tt h
