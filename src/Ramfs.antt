-- ===== src/Ramfs.antt =====
-- ramfs.c and include/ramfs.h: the initial file system. A pointer to one is `none` where it is
-- NULL; `files` are the file headers that the memory behind the header holds, which may be fewer
-- than the header says. An `int` result is its 32-bit pattern, so -1 is 2^32 - 1.
pub mod Find
use mink.Prelude.{
  ℕ, zero, suc, ◌+◌, ◌-◌, ◌^◌, Bool, true, false, ◌||◌, ◌==◌, if◌then◌else◌, List, [], ◌∷◌, Option,
  none, some, Outcome, ok, undefined, ◌>>=◌,
}

abbrev pub ramfs_magic : ℕ
ramfs_magic = 0x0101ca75

abbrev pub ramfs_version : ℕ
ramfs_version = 10

-- `file_name` has 24 bytes.
pub record FileHeader : Type 0 where
  pub file_start : ℕ
  pub file_length : ℕ
  pub file_name : List ℕ

pub record Ramfs : Type 0 where
  pub magic : ℕ
  pub version : ℕ
  pub fs_size : ℕ
  pub file_count : ℕ
  pub files : List FileHeader

unfoldable pub is_valid_ramfs : Option Ramfs → Bool
is_valid_ramfs none = false
is_valid_ramfs (some fs) =
    if not_equal fs.magic ramfs_magic
    then false
    else if not_equal fs.version ramfs_version
    then false
    else true
  where
    not_equal : ℕ → ℕ → Bool
    not_equal a b = if a == b then false else true

-- The header field that a function reports for a valid ramfs.
abbrev pub report : Option Ramfs → (Ramfs → ℕ) → ℕ
report none field = 2 ^ 32 - 1
report (some fs) field = if is_valid_ramfs (some fs) then field fs else 2 ^ 32 - 1

unfoldable pub ramfs_size : Option Ramfs → ℕ
ramfs_size fs = report fs (λ r. r.fs_size)

unfoldable pub ramfs_file_count : Option Ramfs → ℕ
ramfs_file_count fs = report fs (λ r. r.file_count)

-- strncmp(a, b, n) == 0 of the C library, on arrays of bytes.
unfoldable pub strncmp_equal : ℕ → List ℕ → List ℕ → Outcome Bool
strncmp_equal zero s t = ok true
strncmp_equal (suc n) [] t = undefined
strncmp_equal (suc n) (c ∷ s) [] = undefined
strncmp_equal (suc n) (c ∷ s) (d ∷ t) =
    let rest = strncmp_equal n s t in
    if c == d then (if c == 0 then ok true else rest) else ok false

-- The loop of ramfs_find_file() at file `i`, with `left` files to go: the number of the file.
unfoldable pub find_from : List ℕ → ℕ → ℕ → List FileHeader → Outcome (Option ℕ)
find_from name zero i files = ok none
find_from name (suc left) i [] = undefined
find_from name (suc left) i (f ∷ files) =
    let rest = find_from name left (i + 1) files in
    do same ← strncmp_equal 24 name f.file_name; if same then ok (some i) else rest

unfoldable pub ramfs_find_file : Option Ramfs → Option (List ℕ) → Outcome (Option ℕ)
ramfs_find_file none name = ok none
ramfs_find_file (some fs) none = ok none
ramfs_find_file (some fs) (some name) =
    if is_valid_ramfs (some fs) then find_from name fs.file_count 0 fs.files else ok none

-- The offset of the data from the file header, which the pointer that is returned adds to it.
unfoldable pub ramfs_file_open : Option FileHeader → Option ℕ
ramfs_file_open none = none
ramfs_file_open (some file) =
    if file.file_length == 0
    then none
    else if file.file_start == 0
    then none
    else some file.file_start
