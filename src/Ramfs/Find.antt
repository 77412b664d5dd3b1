-- ===== src/Ramfs/Find.antt =====
-- ramfs_find_file() finds the first file of that name.
use mink.Prelude.{
  ℕ, zero, suc, ◌+◌, ◌≡◌, ◌≢◌, ◌⊎◌, ◌↔◌, inl, inr, refl, arith, Bool, true, false, ◌==◌,
  if◌then◌else◌, List, [], ◌∷◌, Option, none, some, ok, Bool-cases, ==→eq, ap, sym,
}
use mink.Ramfs.{
  FileHeader, Ramfs, ramfs_magic, ramfs_version, is_valid_ramfs, strncmp_equal, find_from,
  ramfs_find_file,
}

-- The C string in the first `n` bytes of an array: those before the first 0.
abbrev pub text : ℕ → List ℕ → List ℕ
text zero s = []
text (suc n) [] = []
text (suc n) (c ∷ s) = if c == 0 then [] else c ∷ text n s

-- The array is not read past its end: it has `n` bytes, or a 0 among fewer.
abbrev pub IsReadable : ℕ → List ℕ → Type 0
IsReadable zero s = Unit
IsReadable (suc n) [] = ⊥
IsReadable (suc n) (c ∷ s) = (c ≡ 0) ⊎ IsReadable n s

cons_injective : (c : ℕ) (s t : List ℕ) → c ∷ s ≡ c ∷ t → s ≡ t
cons_injective c s t e = cc

-- Comparing readable arrays compares the strings in them.
pub strncmp_equal_lem :
    (n : ℕ) (s t : List ℕ)
    → IsReadable n s
    → IsReadable n t
    → (b : Bool) × (strncmp_equal n s t ≡ ok b) × ((b ≡ true) ↔ (text n s ≡ text n t))
unfolding strncmp_equal
strncmp_equal_lem zero s t p q = (true, refl, (λ _. refl, λ _. refl))
strncmp_equal_lem (suc n) [] t p q = absurd p
strncmp_equal_lem (suc n) (c ∷ s) [] p q = absurd q
strncmp_equal_lem (suc n) (c ∷ s) (d ∷ t) p q = elim (Bool-cases (c == d)) [
  | inr differ ↦ (false, rw differ, (λ e. cc, λ e. ground arith))
  | inl same ↦ elim (Bool-cases (c == 0)) [
    | inl end ↦ (true, rw (same, end), (λ _. rw (end, ← ==→eq c d same, end), λ _. refl))
    | inr more ↦
        let p' : IsReadable n s = elim p [ inl z ↦ absurd (ground arith) | inr r ↦ r ] in
        let q' : IsReadable n t = elim q [ inl z ↦ absurd (ground arith) | inr r ↦ r ] in
        let (b, returns, decides) = strncmp_equal_lem n s t p' q' in
        let d_is : c ≡ d = ==→eq c d same in
        (
          b,
          rw (same, more, returns),
          (
            λ e. rw (← d_is, more) (ap (λ r. c ∷ r) (decides.0 e)),
            λ e. decides.1 (cons_injective c (text n s) (text n t) (rw (← d_is, more) at e)),
          ),
        )
  ]
]

-- The first of `count` files, numbered from `i`, whose name is `wanted`.
abbrev pub FirstNamed : List ℕ → ℕ → ℕ → List FileHeader → Option ℕ → Type 0
FirstNamed wanted zero i files r = r ≡ none
FirstNamed wanted (suc count) i [] r = ⊥
FirstNamed wanted (suc count) i (f ∷ files) r =
    ((text 24 f.file_name ≡ wanted) × (r ≡ some i))
    ⊎ ((text 24 f.file_name ≢ wanted) × FirstNamed wanted count (i + 1) files r)

-- Memory holds `count` file headers with readable names.
abbrev pub HasFiles : ℕ → List FileHeader → Type 0
HasFiles zero files = Unit
HasFiles (suc count) [] = ⊥
HasFiles (suc count) (f ∷ files) = IsReadable 24 f.file_name × HasFiles count files

find_from_lem :
    (name : List ℕ) (count i : ℕ) (files : List FileHeader)
    → IsReadable 24 name
    → HasFiles count files
    → (r : Option ℕ) × (find_from name count i files ≡ ok r)
      × FirstNamed (text 24 name) count i files r
unfolding find_from
find_from_lem name zero i files p h = (none, refl, refl)
find_from_lem name (suc count) i [] p h = absurd h
find_from_lem name (suc count) i (f ∷ files) p h =
    let (b, returns, decides) = strncmp_equal_lem 24 name f.file_name p h.0 in
    elim (Bool-cases b) [
      | inl same ↦ (some i, rw (returns, same), inl (sym (decides.0 same), refl))
      | inr other ↦
          let (r, found, first) = find_from_lem name count (i + 1) files p h.1 in
          (r, rw (returns, other) found, inr (λ e. not_both b other (decides.1 (sym e)), first))
    ]
  where
    not_both : (b : Bool) → b ≡ false → b ≡ true → ⊥
    not_both b e f = cc

abbrev pub IsRamfs : Ramfs → Type 0
IsRamfs fs = (fs.magic ≡ ramfs_magic) × (fs.version ≡ ramfs_version)

pub is_valid_ramfs_iff : (fs : Ramfs) → (is_valid_ramfs (some fs) ≡ true) ↔ IsRamfs fs
unfolding is_valid_ramfs
is_valid_ramfs_iff fs = ground arith

-- ramfs_find_file() of a name in an image with the right magic number and version, whose memory
-- holds as many file headers as the header says: it reads no name past its 24 bytes, and finds the
-- first file whose name is the same string in 24 bytes, or NULL if there is none.
pub find_file-FirstNamed :
    (fs : Ramfs) (name : List ℕ)
    → IsRamfs fs
    → IsReadable 24 name
    → HasFiles fs.file_count fs.files
    → (r : Option ℕ) × (ramfs_find_file (some fs) (some name) ≡ ok r)
      × FirstNamed (text 24 name) fs.file_count 0 fs.files r
unfolding ramfs_find_file
find_file-FirstNamed fs name valid p h =
    rw ((is_valid_ramfs_iff fs).1 valid) (find_from_lem name fs.file_count 0 fs.files p h)

-- For an image with another magic number or another version, or a NULL name, the result is NULL.
find_file_refuses :
    (fs : Ramfs) (name : List ℕ)
    → (¬ (IsRamfs fs) → ramfs_find_file (some fs) (some name) ≡ ok none)
      × (ramfs_find_file (some fs) none ≡ ok none)
unfolding ramfs_find_file
find_file_refuses fs name = (
  λ not_valid. elim (Bool-cases (is_valid_ramfs (some fs))) [
    | inl valid ↦ absurd (not_valid ((is_valid_ramfs_iff fs).0 valid))
    | inr invalid ↦ rw invalid
  ],
  refl,
)
