-- ===== src/Loader/CommandLine.antt =====
-- The way of the command line of loader2.c: out of the boot loader's memory into earlyalloc()'s, and
-- from there to the arguments of kmain().
use mink.Prelude.{
  ℕ, zero, suc, ◌+◌, ◌-◌, ◌*◌, ◌%◌, ◌^◌, ◌<◌, ◌≤◌, ◌≡◌, ◌∙◌, inl, inr, refl, ap, arith, true, false,
  ◌==◌, ltb, leb, List, [], ◌∷◌, ◌++◌, length, Option, some, Outcome, ok, Bool-cases,
}
use mathlib.Core.List.{append_assoc}
use mink.Strings.{strlen}
use mink.Strings.Tokens.{IsText, ended, starts, tokenize_lem}
use mink.Vgaterm
use mink.Loader.{
  Boot, MultibootInfo, ElfPointers, earlyalloc_sz, earlyalloc, bytes_at, bytes_from, byte_or,
  store_bytes, memcpy, has_flag, info_cmdline, info_mods, info_elf_shdr, info_memory, higher_half,
  early_copy, copy_cmdline, copy_mods, copy_elf, copy_mmap, pointers, loader,
}

bytes_at-add :
    (bytes : ℕ → ℕ) (a n k : ℕ)
    → bytes_at bytes a (n + k) ≡ bytes_at bytes a n ++ bytes_at bytes (a + n) k
unfolding bytes_at
bytes_at-add bytes a zero k =
    let here : a + 0 ≡ a = omega arith in
    let none_left : 0 + k ≡ k = omega arith in rw (here, none_left) refl
bytes_at-add bytes a (suc n) k =
    let one_more : suc n + k ≡ suc (n + k) = omega arith in
    let next : a + suc n ≡ a + 1 + n = omega arith in
    rw (one_more, next, bytes_at-add bytes (a + 1) n k) refl

length-bytes_at : (bytes : ℕ → ℕ) (a n : ℕ) → length (bytes_at bytes a n) ≡ n
unfolding bytes_at
length-bytes_at bytes a zero = refl
length-bytes_at bytes a (suc n) = omega (arith, length-bytes_at bytes (a + 1) n)

-- The memory from an address on whose first bytes are known.
bytes_from-split :
    (bytes : ℕ → ℕ) (a n : ℕ) (s : List ℕ)
    → a + n ≤ 2 ^ 32
    → bytes_at bytes a n ≡ s
    → bytes_from bytes a ≡ s ++ bytes_from bytes (a + n)
unfolding bytes_from
bytes_from-split bytes a n s fits known =
    let parts : 2 ^ 32 - a ≡ n + (2 ^ 32 - (a + n)) = omega (arith, fits) in
    rw (parts, bytes_at-add bytes a n (2 ^ 32 - (a + n)), known) refl

-- Part of what memcpy() has copied.
bytes_at-memcpy :
    (bytes : ℕ → ℕ) (dest src len i n : ℕ)
    → i + n ≡ len
    → bytes_at (memcpy bytes dest src len) (dest + i) n ≡ bytes_at bytes (src + i) n
unfolding bytes_at memcpy
bytes_at-memcpy bytes dest src len i zero e = refl
bytes_at-memcpy bytes dest src len i (suc n) e =
    let next : (a : ℕ) → a + i + 1 ≡ a + (i + 1) = λ a. omega arith in
    let behind : leb dest (dest + i) ≡ true = ground arith in
    let before : ltb (dest + i) (dest + len) ≡ true = ground arith in
    let head : memcpy bytes dest src len (dest + i) ≡ bytes (src + i) =
      rw (behind, before) (let back : dest + i - dest ≡ i = omega arith in rw back refl) in
    let tail : bytes_at (memcpy bytes dest src len) (dest + i + 1) n
        ≡ bytes_at bytes (src + i + 1) n =
      rw (next dest, next src) (bytes_at-memcpy bytes dest src len (i + 1) n (omega (arith, e))) in
    rw (head, tail) refl

strlen-text : (s rest : List ℕ) → IsText s → strlen (s ++ 0 ∷ rest) ≡ ok (length s)
unfolding strlen
strlen-text [] rest text = refl
strlen-text (b ∷ s) rest (some_byte, text) =
    let byte : b == 0 ≡ false = ground (arith, some_byte) in
    rw (byte, strlen-text s rest text) (ap ok (omega arith))

bytes_at-same :
    (bytes bytes' : ℕ → ℕ) (a n : ℕ)
    → ((x : ℕ) → a ≤ x → x < a + n → bytes' x ≡ bytes x)
    → bytes_at bytes' a n ≡ bytes_at bytes a n
unfolding bytes_at
bytes_at-same bytes bytes' a zero same = refl
bytes_at-same bytes bytes' a (suc n) same =
    rw
      (
        same a (omega arith) (omega arith),
        bytes_at-same bytes bytes' (a + 1) n (λ x low high. same x (omega arith) (omega arith)),
      )
      refl

-- The array of earlyalloc(), of 2 KB, in 32-bit memory and not at 0.
abbrev pub IsArray : ℕ → Type 0
IsArray buf = (0 < buf) × (buf + earlyalloc_sz ≤ 2 ^ 32)

-- The kernel's own command line: the text `s` in the part of earlyalloc()'s array that is in use, at
-- address `p`, with a 0 behind it. Of `info` the kernel has the flags and the lengths.
record Holds (buf p : ℕ) (info : MultibootInfo) (s : List ℕ) (b : Boot) : Type 0 where
  cmdline : b.mboot.cmdline ≡ p
  text : bytes_at b.bytes p (length s + 1) ≡ s ++ 0 ∷ []
  in_use : p + length s + 1 ≤ buf + b.idx
  room : b.idx < earlyalloc_sz
  flags_are : b.mboot.flags ≡ info.flags
  mods_are : b.mboot.mods_count ≡ info.mods_count
  mmap_is : b.mboot.mmap_length ≡ info.mmap_length

-- A later allocation, of less than 4 GB without the array, leaves it alone.
early_copy-Holds :
    (buf p src len : ℕ) (info : MultibootInfo) (s : List ℕ) (b : Boot)
    → IsArray buf
    → len + earlyalloc_sz ≤ 2 ^ 32
    → Holds buf p info s b
    → Holds buf p info s (early_copy buf b src len).1
unfolding early_copy earlyalloc memcpy
early_copy-Holds buf p src len info s b array bound h =
    elim (Bool-cases (leb earlyalloc_sz ((b.idx + len) % 2 ^ 32))) [
      | inl full ↦ rw full h
      | inr room ↦
          let sum : (b.idx + len) % 2 ^ 32 ≡ b.idx + len = omega (arith, bound, h.room) in
          let ptr : (buf + b.idx) % 2 ^ 32 ≡ buf + b.idx = omega (arith, array.1, h.room) in
          let some_ptr : buf + b.idx == 0 ≡ false = ground (arith, array.0) in
          let small : b.idx + len < earlyalloc_sz = ground (arith, room, sum) in
          rw (room, ptr, some_ptr)
            record {
              cmdline = h.cmdline;
              text =
                  bytes_at-same b.bytes (memcpy b.bytes (buf + b.idx) src len) p (length s + 1)
                    (λ x low high.
                      let before : leb (buf + b.idx) x ≡ false = ground (arith, h.in_use, high) in
                      rw before refl)
                  ∙ h.text;
              in_use = omega (arith, h.in_use, sum);
              room = omega (arith, small, sum);
              flags_are = h.flags_are;
              mods_are = h.mods_are;
              mmap_is = h.mmap_is;
            }
    ]

-- The boot loader's command line is the text `s`.
abbrev pub IsCommandLine : Boot → List ℕ → Type 0
IsCommandLine b s =
    IsText s
    × (higher_half b.given.cmdline + (length s + 1) ≤ 2 ^ 32)
    × (bytes_at b.bytes (higher_half b.given.cmdline) (length s + 1) ≡ s ++ 0 ∷ [])

record CopiesCommandLine (buf : ℕ) (s : List ℕ) (b : Boot) (r : Outcome Boot) : Type 0 where
  pub out : Boot
  returns : r ≡ ok out
  holds : Holds buf (buf + b.idx) b.mboot s out

copy_cmdline-CopiesCommandLine :
    (buf : ℕ) (s : List ℕ) (b : Boot)
    → IsArray buf
    → has_flag b info_cmdline ≡ true
    → IsCommandLine b s
    → b.idx + (length s + 1) < earlyalloc_sz
    → CopiesCommandLine buf s b (copy_cmdline buf b)
unfolding copy_cmdline early_copy earlyalloc
copy_cmdline-CopiesCommandLine buf s b array flag (text, fits, there) small =
    let src = higher_half b.given.cmdline in
    let rest = bytes_from b.bytes (src + (length s + 1)) in
    let line : bytes_from b.bytes src ≡ s ++ 0 ∷ rest =
      bytes_from-split b.bytes src (length s + 1) (s ++ 0 ∷ []) fits there
      ∙ append_assoc s (0 ∷ []) rest in
    let sum : (b.idx + (length s + 1)) % 2 ^ 32 ≡ b.idx + (length s + 1) = omega (arith, small) in
    let ptr : (buf + b.idx) % 2 ^ 32 ≡ buf + b.idx = omega (arith, array.1, small) in
    let some_ptr : buf + b.idx == 0 ≡ false = ground (arith, array.0) in
    let room : leb earlyalloc_sz (b.idx + (length s + 1)) ≡ false = ground (arith, small) in
    rw (flag, line, strlen-text s rest text, sum, room, ptr, some_ptr)
      record {
        out = _;
        returns = refl;
        holds = record {
          cmdline = refl;
          text = copied b.bytes (buf + b.idx) src (length s + 1) ∙ there;
          in_use = omega arith;
          room = small;
          flags_are = refl;
          mods_are = refl;
          mmap_is = refl;
        };
      }
  where
    copied :
        (bytes : ℕ → ℕ) (dest src len : ℕ)
        → bytes_at (memcpy bytes dest src len) dest len ≡ bytes_at bytes src len
    copied bytes dest src len =
        let here : (a : ℕ) → a + 0 ≡ a = λ a. omega arith in
        rw (here dest, here src) at (bytes_at-memcpy bytes dest src len 0 len (omega arith))

copy_mods-Holds :
    (buf p : ℕ) (info : MultibootInfo) (s : List ℕ) (b : Boot)
    → IsArray buf
    → (info.mods_count * 16) % 2 ^ 32 + earlyalloc_sz ≤ 2 ^ 32
    → Holds buf p info s b
    → Holds buf p info s (copy_mods buf b)
unfolding copy_mods
copy_mods-Holds buf p info s b array bound h = elim (Bool-cases (has_flag b info_mods)) [
  | inr without ↦ rw without h
  | inl mods ↦
      let k =
        early_copy-Holds buf p (higher_half b.given.mods_addr) _ info s b array
          (rw h.mods_are bound) h in
      rw mods record {
        cmdline = h.cmdline;
        text = k.text;
        in_use = k.in_use;
        room = k.room;
        flags_are = h.flags_are;
        mods_are = h.mods_are;
        mmap_is = h.mmap_is;
      }
]

copy_mmap-Holds :
    (buf p : ℕ) (info : MultibootInfo) (s : List ℕ) (b : Boot)
    → IsArray buf
    → (info.mmap_length + 4) % 2 ^ 32 + earlyalloc_sz ≤ 2 ^ 32
    → Holds buf p info s b
    → Holds buf p info s (copy_mmap buf b)
unfolding copy_mmap
copy_mmap-Holds buf p info s b array bound h = elim (Bool-cases (has_flag b info_memory)) [
  | inr without ↦ rw without h
  | inl memory ↦
      let k = early_copy-Holds buf p _ _ info s b array (rw h.mmap_is bound) h in
      rw memory record {
        cmdline = h.cmdline;
        text = k.text;
        in_use = k.in_use;
        room = k.room;
        flags_are = h.flags_are;
        mods_are = h.mods_are;
        mmap_is = h.mmap_is;
      }
]

byte_or-append :
    (old old' : ℕ) (l m : List ℕ) (i : ℕ) → i < length l → byte_or old (l ++ m) i ≡ byte_or old' l i
byte_or-append old old' [] m i lt = absurd (omega (arith, lt))
byte_or-append old old' (b ∷ l) m zero lt = refl
byte_or-append old old' (b ∷ l) m (suc i) lt = byte_or-append old old' l m i (omega (arith, lt))

bytes_at-list :
    (bytes : ℕ → ℕ) (a : ℕ) (l : List ℕ)
    → ((i : ℕ) → i < length l → bytes (a + i) ≡ byte_or 0 l i)
    → bytes_at bytes a (length l) ≡ l
unfolding bytes_at
bytes_at-list bytes a [] at_index = refl
bytes_at-list bytes a (b ∷ l) at_index =
    let here : a + 0 ≡ a = omega arith in
    let head : bytes a ≡ b = rw here at (at_index 0 (omega arith)) in
    let next : (i : ℕ) → a + suc i ≡ a + 1 + i = λ i. omega arith in
    let tail =
      bytes_at-list bytes (a + 1) l
        (λ i lt. rw (next i) at (at_index (suc i) (omega (arith, lt)))) in
    let count : 1 + length l ≡ suc (length l) = omega arith in rw (head, tail) refl

bytes_at-store_bytes :
    (bytes : ℕ → ℕ) (a : ℕ) (l m : List ℕ)
    → bytes_at (store_bytes bytes a (l ++ m)) a (length l) ≡ l
unfolding store_bytes
bytes_at-store_bytes bytes a l m = bytes_at-list (store_bytes bytes a (l ++ m)) a l (λ i lt.
    let behind : ltb (a + i) a ≡ false = ground arith in
    let back : a + i - a ≡ i = omega arith in
    rw (behind, back) (byte_or-append (bytes (a + i)) 0 l m i lt))

length-ended : (tok : ℕ) (s : List ℕ) → length (ended tok s ++ 0 ∷ []) ≡ length s + 1
length-ended tok [] = refl
length-ended tok (b ∷ s) = omega (arith, length-ended tok s)

stored_tokens :
    (bytes : ℕ → ℕ) (a : ℕ) (s rest : List ℕ)
    → bytes_at (store_bytes bytes a (ended 32 s ++ 0 ∷ rest)) a (length s + 1)
      ≡ ended 32 s ++ 0 ∷ []
stored_tokens bytes a s rest =
    rw (← length-ended 32 s, ← append_assoc (ended 32 s) (0 ∷ []) rest)
      (bytes_at-store_bytes bytes a (ended 32 s ++ 0 ∷ []) rest)

-- What loader() returns when it calls kmain() with the tokens of `s`, which stands at `p`.
pub record PassesTokens (p : ℕ) (s : List ℕ) (r : Outcome (Option (List ℕ) × Boot)) : Type 0 where
  pub out : Boot
  pub returns : r ≡ ok (some (pointers p (starts 32 true 0 s)), out)
  pub tokens : bytes_at out.bytes p (length s + 1) ≡ ended 32 s ++ 0 ∷ []

-- For a command line `s` of at most 256 tokens, one of the boot loader's structures without a section
-- table, and modules and a map of less than 4 GB without the array: when earlyalloc() has room for
-- the command line, loader() calls kmain() with pointers to the tokens of a copy of it, in order, and
-- each space of the copy is 0 then.
pub loader-PassesTokens :
    (buf : ℕ) (elf : ElfPointers) (s : List ℕ) (b : Boot)
    → IsArray buf
    → IsCommandLine b s
    → has_flag (record b { mboot = b.given }) info_cmdline ≡ true
    → has_flag (record b { mboot = b.given }) info_elf_shdr ≡ false
    → b.idx + (length s + 1) < earlyalloc_sz
    → length (starts 32 true 0 s) ≤ 256
    → (b.given.mods_count * 16) % 2 ^ 32 + earlyalloc_sz ≤ 2 ^ 32
    → (b.given.mmap_length + 4) % 2 ^ 32 + earlyalloc_sz ≤ 2 ^ 32
    → PassesTokens (buf + b.idx) s (loader buf elf 0x2bad_b002 b)
unfolding loader copy_elf
loader-PassesTokens buf elf s b array line cmdline no_elf small few mods mmap =
    let p = buf + b.idx in
    let c = record b { mboot = b.given; term = Vgaterm.vgaterm_init b.term } in
    let r = copy_cmdline-CopiesCommandLine buf s c array cmdline line small in
    let h = copy_mods-Holds buf p b.given s r.out array mods r.holds in
    let no_table : has_flag (copy_mods buf r.out) info_elf_shdr ≡ false = rw h.flags_are no_elf in
    let d = record (copy_mods buf r.out) {
      kernel_elf = record { symtab = 0; symtabsz = 0; strtab = 0; strtabsz = 0 };
    } in
    let k = copy_mmap-Holds buf p b.given s d array mmap record {
      cmdline = h.cmdline;
      text = h.text;
      in_use = h.in_use;
      room = h.room;
      flags_are = h.flags_are;
      mods_are = h.mods_are;
      mmap_is = h.mmap_is;
    } in
    let e = copy_mmap buf d in
    let rest = bytes_from e.bytes (p + (length s + 1)) in
    let in_memory : p + (length s + 1) ≤ 2 ^ 32 = omega (arith, array.1, small) in
    let text_is : bytes_from e.bytes p ≡ s ++ 0 ∷ rest =
      bytes_from-split e.bytes p (length s + 1) (s ++ 0 ∷ []) in_memory k.text
      ∙ append_assoc s (0 ∷ []) rest in
    let tokens_are = tokenize_lem 32 256 s rest (omega arith) line.0 few in
    rw (r.returns, no_table, k.cmdline, text_is, tokens_are)
      record { out = _; returns = refl; tokens = stored_tokens e.bytes p s rest }
