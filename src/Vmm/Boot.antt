-- ===== src/Vmm/Boot.antt =====
-- The directory that loader.s leaves, and the entries that vmm.c adds to it, as IsTree has them.
use mink.Prelude.{
  ℕ, ◌+◌, ◌*◌, ◌/◌, ◌%◌, ◌^◌, ◌<◌, ◌≤◌, ◌⊎◌, ap, ◌≡◌, ◌≢◌, ◌∙◌, inl, inr, refl, sym, arith, bit_or,
  ok, true, ◌==◌, if◌then◌else◌, Bool-cases, ==→eq,
}
use mink.Prelude.Digits.{bit_or-digit}
use mink.Prelude.Bits.{bit_or-one}
use mink.Buddy.{u32}
use mink.Vmm.{Vmm, x86_present, x86_write, is_present, is_writable, walk, store, put}
use mink.Vmm.Tables.{IsTree}

-- A writable entry for a table that is in no use as one.
pub put_table-IsTree :
    (m : Vmm) (tree : IsTree m) (d w : ℕ)
    → d < 1023
    → is_present w ≡ true
    → is_writable w ≡ true
    → ((i : ℕ)
        → i < 1024
        → is_present (m.word m.cr3 i) ≡ true
        → m.word m.cr3 i / 2 ^ 12 ≢ w / 2 ^ 12)
    → IsTree (put m m.cr3 d w)
put_table-IsTree m tree d w below present writable unused = record {
  recursive = record {
    frame = ground (arith, tree.recursive.frame);
    present = ground (arith, tree.recursive.present);
  };
  writable = λ i lt p. elim (Bool-cases (i == d)) [
    | inl here ↦ rw (dir_word i, here) writable
    | inr there ↦ rw (dir_word i, there) (tree.writable i lt (rw (dir_word i, there) at p))
  ];
  low = λ p e. elim (Bool-cases (0 == d)) [
    | inl here ↦ absurd (elsewhere (sym (rw (dir_word 0, here) at e)))
    | inr there ↦ tree.low (rw (dir_word 0, there) at p) (rw (dir_word 0, there) at e)
  ];
  apart = λ i j from from' lt lt' p q e. elim (Bool-cases (i == d)) [
    | inl here ↦ elim (Bool-cases (j == d)) [
      | inl here' ↦ ground arith
      | inr there' ↦
          let q' : is_present (m.word m.cr3 j) ≡ true = rw (dir_word j, there') at q in
          absurd (unused j lt' q' (sym (rw (dir_word i, here, dir_word j, there') at e)))
    ]
    | inr there ↦ elim (Bool-cases (j == d)) [
      | inl here' ↦
          let p' : is_present (m.word m.cr3 i) ≡ true = rw (dir_word i, there) at p in
          absurd (unused i lt p' (rw (dir_word i, there, dir_word j, here') at e))
      | inr there' ↦
          tree.apart i j from from' lt lt' (rw (dir_word i, there) at p)
            (rw (dir_word j, there') at q) (rw (dir_word i, there, dir_word j, there') at e)
    ]
  ];
}
  where
    elsewhere : m.cr3 ≢ w / 2 ^ 12
    elsewhere e = unused 1023 (omega arith) tree.recursive.present (tree.recursive.frame ∙ e)

    dir_word : (i : ℕ) → (put m m.cr3 d w).word m.cr3 i ≡ (if i == d then w else m.word m.cr3 i)
    dir_word i = ground arith

-- The directory of loader.s, in the first 4 MB: these and those from 3 GB have the table in frame `pt`,
-- which maps them to the first 4 MB.
pub record IsBoot (m : Vmm) (pt : ℕ) : Type 0 where
  pub first : m.word m.cr3 0 ≡ pt * 2 ^ 12 + 3
  pub higher_half : m.word m.cr3 768 ≡ pt * 2 ^ 12 + 3
  pub others : (i : ℕ) → i < 1024 → i ≢ 0 → i ≢ 768 → m.word m.cr3 i ≡ 0
  pub identity : (i : ℕ) → i < 1024 → m.word pt i ≡ i * 2 ^ 12 + 3
  pub low : m.cr3 < 1024
  pub apart : pt ≢ m.cr3

-- What init_virtual_memory() writes first: the directory's entry for itself.
abbrev pub with_self : Vmm → Vmm
with_self m = put m m.cr3 1023 (m.cr3 * 2 ^ 12 + 3)

boot-cases :
    (m : Vmm) (pt : ℕ) (boot : IsBoot m pt) (i : ℕ)
    → i < 1024
    → is_present ((with_self m).word m.cr3 i) ≡ true
    → ((i ≡ 1023) × ((with_self m).word m.cr3 i ≡ m.cr3 * 2 ^ 12 + 3))
      ⊎ (((i ≡ 0) ⊎ (i ≡ 768)) × ((with_self m).word m.cr3 i ≡ pt * 2 ^ 12 + 3))
boot-cases m pt boot i lt p = elim (Bool-cases (i == 1023)) [
  | inl last ↦ inl (==→eq i 1023 last, ground (arith, last))
  | inr below ↦
      let old : (with_self m).word m.cr3 i ≡ m.word m.cr3 i = ground (arith, below) in
      elim (Bool-cases (i == 0)) [
        | inl here ↦
            let at_0 : i ≡ 0 = ==→eq i 0 here in
            inr (inl at_0, old ∙ ap (m.word m.cr3) at_0 ∙ boot.first)
        | inr later ↦ elim (Bool-cases (i == 768)) [
          | inl here ↦
              let at_768 : i ≡ 768 = ==→eq i 768 here in
              inr (inr at_768, old ∙ ap (m.word m.cr3) at_768 ∙ boot.higher_half)
          | inr other ↦
              let nothing : m.word m.cr3 i ≡ 0 =
                boot.others i lt (λ e. ground (arith, later, e)) (λ e. ground (arith, other, e)) in
              absurd (ground (arith, rw (old, nothing) at p))
        ]
      ]
]

-- With the entry for itself, the first thing that init_virtual_memory() writes, the directory of
-- loader.s is as IsTree has it.
pub boot-IsTree : (m : Vmm) (pt : ℕ) → IsBoot m pt → IsTree (with_self m)
boot-IsTree m pt boot = record {
  recursive = record { frame = ground arith; present = ground arith };
  writable = λ i lt p. elim (boot-cases m pt boot i lt p) [
    | inl (last, word) ↦ rw word (ground arith)
    | inr (which, word) ↦ rw word (ground arith)
  ];
  low = λ p e. elim (boot-cases m pt boot 0 (omega arith) p) [
    | inl (last, word) ↦ omega (arith, last)
    | inr (which, word) ↦ boot.apart (omega (arith, word, e))
  ];
  apart = λ i j from from' lt lt' p q e. elim (boot-cases m pt boot i lt p) [
    | inl (last, word) ↦ elim (boot-cases m pt boot j lt' q) [
      | inl (last', word') ↦ last ∙ sym last'
      | inr (which', word') ↦ absurd (boot.apart (omega (arith, word, word', e)))
    ]
    | inr (which, word) ↦ elim (boot-cases m pt boot j lt' q) [
      | inl (last', word') ↦ absurd (boot.apart (omega (arith, word, word', e)))
      | inr (which', word') ↦ kernel i from which ∙ sym (kernel j from' which')
    ]
  ];
}
  where
    kernel : (i : ℕ) → 1 ≤ i → (i ≡ 0) ⊎ (i ≡ 768) → i ≡ 768
    kernel i from (inl none_here) = absurd (omega (arith, from, none_here))
    kernel i from (inr here) = here

self_flags : (f : ℕ) → f < 1024 → u32 (bit_or (bit_or (f * 2 ^ 12) 1) 2) ≡ f * 2 ^ 12 + 3
self_flags f lt =
    let one : bit_or (f * 2 ^ 12) 1 ≡ f * 2 ^ 12 + 1 = omega (arith, bit_or-one (f * 2 ^ 12)) in
    let two : bit_or (f * 2 ^ 12 + 1) 2 ≡ f * 2 ^ 12 + 3 =
      omega (arith, bit_or-digit (f * 2 ^ 12 + 1) 2, bit_or-one ((f * 2 ^ 12 + 1) / 2)) in
    rw (one, two) (omega (arith, lt))

-- The store of init_virtual_memory() to the directory at its physical address.
pub stores_self :
    (m : Vmm) (pt : ℕ)
    → IsBoot m pt
    → store m
        (m.cr3 * 2 ^ 12 + 1023 * 4)
        (u32 (bit_or (bit_or (m.cr3 * 2 ^ 12) x86_present) x86_write))
      ≡ ok (with_self m)
unfolding store walk
stores_self m pt boot =
    let d : (m.cr3 * 2 ^ 12 + 1023 * 4) / 2 ^ 22 ≡ 0 = omega (arith, boot.low) in
    let t : (m.cr3 * 2 ^ 12 + 1023 * 4) / 2 ^ 12 % 1024 ≡ m.cr3 = omega (arith, boot.low) in
    let i : (m.cr3 * 2 ^ 12 + 1023 * 4) % 2 ^ 12 / 4 ≡ 1023 = omega arith in
    let frame : (pt * 2 ^ 12 + 3) / 2 ^ 12 ≡ pt = omega arith in
    let frame' : (m.cr3 * 2 ^ 12 + 3) / 2 ^ 12 ≡ m.cr3 = omega arith in
    let p : (n : ℕ) → is_present (n * 2 ^ 12 + 3) ≡ true = λ n. ground arith in
    let w : (n : ℕ) → is_writable (n * 2 ^ 12 + 3) ≡ true = λ n. ground arith in
    rw
      (
        self_flags m.cr3 boot.low,
        d,
        t,
        i,
        boot.first,
        frame,
        boot.identity m.cr3 boot.low,
        p pt,
        w pt,
        p m.cr3,
        w m.cr3,
        frame',
      )
      refl
