-- ===== src/Kmalloc/Header.antt =====
-- kfree() finds in the header what kmalloc() did.
use mink.Prelude.{
  ℕ, ◌+◌, ◌-◌, ◌*◌, ◌/◌, ◌%◌, ◌^◌, ◌<◌, ◌≤◌, ◌≡◌, ◌⊎◌, ◌∙◌, sym, ap, inl, inr, refl, arith, true,
  false, Outcome, ◌==◌, ltb, leb, ◌>>=◌, ok, undefined, defined, ◌>>◌, >>=-returns, Bool-cases,
  ltb→lt, bit_and,
}
use mink.Prelude.Bits.{bit_or-below, bit_and-mask}
use mink.Prelude.Powers.{two-pow_lt, two-pow_le}
use mink.Utils.Log2.{log2_roundup_least, log2_roundup-two-pow}
use mink.Buddy.{u32}
use mink.Vmspace
use mink.Slab
use mink.Slab.{SlabCache, World, load_word, store_word}
use mink.Kmalloc.{Heap, set_cache, block_log2, alloc_block, free_block, header, kmalloc, kfree}

load_word-store_word : (w : World) (a v : ℕ) → v < 2 ^ 32 → load_word (store_word w a v) a ≡ v
load_word-store_word w a v lt =
    let after = store_word w a v in
    let b0 : after.bytes a ≡ v % 2 ^ 8 = ground arith in
    let b1 : after.bytes (a + 1) ≡ v / 2 ^ 8 % 2 ^ 8 = ground arith in
    let b2 : after.bytes (a + 2) ≡ v / 2 ^ 16 % 2 ^ 8 = ground arith in
    let b3 : after.bytes (a + 3) ≡ v / 2 ^ 24 % 2 ^ 8 = ground arith in
    omega (arith, b0, b1, b2, b3, lt)

header-parts :
    (l2 : ℕ) → l2 < 2 ^ 8 → (header l2 ≡ 0xdead12 * 2 ^ 8 + l2) × (bit_and (header l2) 0xff ≡ l2)
header-parts l2 lt =
    let e : header l2 ≡ 0xdead12 * 2 ^ 8 + l2 = rw (bit_or-below 8 0xdead12 l2 lt) (omega arith) in
    (e, rw e (bit_and-mask 8 (0xdead12 * 2 ^ 8 + l2) ∙ omega arith))

-- A block of 2^`l2` bytes: of a cache, or of whole pages.
abbrev IsBlock : ℕ → Type 0
IsBlock l2 = ((3 ≤ l2) × (l2 ≤ 9)) ⊎ ((12 ≤ l2) × (l2 < 32))

block_log2_lem :
    (n : ℕ) → 0 < n → n ≤ 2 ^ 31 → (l2 : ℕ) × (block_log2 n ≡ ok l2) × (n ≤ 2 ^ l2) × IsBlock l2
unfolding block_log2
block_log2_lem n pos small =
    let (k, returns, bound, fits, least) = log2_roundup_least n pos (omega arith) in
    let k_le : k < 32 = elim (Bool-cases (ltb k 32)) [
      | inl yes_lt ↦ ground arith
      | inr no_lt ↦ absurd (omega (arith, two-pow_le 32 k (ground arith), least))
    ] in
    elim (Bool-cases (ltb k 3)) [
      | inl tiny ↦ (
        3,
        rw (returns, tiny) refl,
        omega (arith, fits, two-pow_le k 3 (ground arith)),
        inl (omega arith, omega arith),
      )
      | inr not_tiny ↦ elim (Bool-cases (leb k 9)) [
        | inl cached ↦
            let from : leb 3 k ≡ true = ground arith in
            (k, rw (returns, not_tiny, from, cached) refl, fits, inl (ground arith, ground arith))
        | inr large ↦
            let from : leb 3 k ≡ true = ground arith in
            let word : ltb k 32 ≡ true = ground arith in
            elim (Bool-cases (ltb (2 ^ k) 4096)) [
              | inl less ↦ (
                12,
                rw (returns, not_tiny, from, large, word, less)
                    (log2_roundup-two-pow 12 (omega arith)),
                omega (arith, fits, ltb→lt _ _ less),
                inr (omega arith, omega arith),
              )
              | inr page ↦
                  let wide : 12 ≤ k = elim (Bool-cases (ltb k 12)) [
                    | inl k_lt ↦ absurd (ground (arith, two-pow_lt k 12 (ground arith), page))
                    | inr k_ge ↦ ground arith
                  ] in
                  (k, rw (returns, not_tiny, from, large, word, page) refl, fits, inr (wide, k_le))
            ]
      ]
    ]

undefined_ok : {x : ℕ × Heap} → undefined ≡ ok x → ⊥
undefined_ok e = cc

kfree_block :
    (h : Heap) (l2 ptr : ℕ)
    → l2 < 2 ^ 8
    → load_word h.world ptr ≡ header l2
    → kfree h (ptr + 4) ≡ free_block h l2 ptr
unfolding kfree
kfree_block h l2 ptr byte intact =
    let (whole, low) = header-parts l2 byte in
    let back : ptr + 4 - 4 ≡ ptr = omega arith in
    let canary : header l2 / 2 ^ 8 == 0xdead12 ≡ true = ground (arith, whole) in
    rw (back, intact, canary, low) refl

-- `p` is 4 bytes behind the object `ptr` that the cache for 2^`l2` bytes gave, and kfree() of it is
-- slab_cache_free() of that object by the same cache, in the state that the allocation left it in.
abbrev pub FromCache : Heap → Heap → ℕ → ℕ → ℕ → Type 0
FromCache h h' l2 ptr p =
    (3 ≤ l2)
    × (l2 ≤ 9)
    × (p ≡ ptr + 4)
    × (c : SlabCache) × (w : World) × (Slab.slab_cache_alloc (h.caches (l2 - 3)) h.world
        ≡ ok (ptr, c, w))
    × (kfree h' p ≡ (
        Slab.slab_cache_free c (store_word w ptr (header l2)) ptr >>= λ (c', w').
        ok (set_cache h' (l2 - 3) c' w')))

-- `p` is 4 bytes behind the pages at `ptr` that vmspace_alloc() gave for 2^`l2` bytes, and kfree() of
-- it is vmspace_free() of those pages, with the physical ones, in the state that it left.
abbrev pub FromSpace : Heap → Heap → ℕ → ℕ → ℕ → Type 0
FromSpace h h' l2 ptr p =
    (12 ≤ l2)
    × (l2 < 32)
    × (p ≡ ptr + 4)
    × (space : Vmspace.State) × (Vmspace.vmspace_alloc h.world.space (2 ^ l2) 1 ≡ ok (ptr, space))
    × (kfree h' p ≡ (
        Vmspace.vmspace_free space (2 ^ l2) ptr true >>= λ space'.
        ok (record h' { world = record h'.world { space = space' } })))

alloc_cached :
    (h h1 : Heap) (l2 ptr : ℕ)
    → l2 ≤ 9
    → alloc_block h l2 ≡ ok (ptr, h1)
    → (c : SlabCache) × (w : World) × (Slab.slab_cache_alloc (h.caches (l2 - 3)) h.world
        ≡ ok (ptr, c, w))
      × (h1 ≡ set_cache h (l2 - 3) c w)
unfolding alloc_block
alloc_cached h h1 l2 ptr high alloc =
    let cached : leb l2 9 ≡ true = ground arith in
    let ((ptr', c, w), gives, rest) =
      >>=-returns (Slab.slab_cache_alloc (h.caches (l2 - 3)) h.world) _ (rw cached at alloc) in
    let same : ptr' ≡ ptr = cc in
    let heap : h1 ≡ set_cache h (l2 - 3) c w = cc in
    (c, w, gives ∙ ap (λ a. ok (a, c, w)) same, heap)

alloc_pages :
    (h h1 : Heap) (l2 ptr : ℕ)
    → 12 ≤ l2
    → alloc_block h l2 ≡ ok (ptr, h1)
    → (space : Vmspace.State) × (Vmspace.vmspace_alloc h.world.space (2 ^ l2) 1 ≡ ok (ptr, space))
      × (h1.world.space ≡ space)
unfolding alloc_block
alloc_pages h h1 l2 ptr high alloc =
    let large : leb l2 9 ≡ false = ground arith in
    let ((ptr', space), gives, rest) =
      >>=-returns (Vmspace.vmspace_alloc h.world.space (2 ^ l2) 1) _ (rw large at alloc) in
    let same : ptr' ≡ ptr = cc in
    let heap : (let w : World = record h.world { space = space } in record h { world = w }) ≡ h1 =
      cc in
    (space, gives ∙ ap (λ a. ok (a, space)) same, sym (ap (λ g. g.world.space) heap))

free_cached :
    (h : Heap) (l2 ptr : ℕ)
    → 3 ≤ l2
    → l2 ≤ 9
    → free_block h l2 ptr ≡ (
        Slab.slab_cache_free (h.caches (l2 - 3)) h.world ptr >>= λ (c, w).
        ok (set_cache h (l2 - 3) c w))
unfolding free_block
free_cached h l2 ptr low high =
    let cached : leb l2 9 ≡ true = ground arith in
    let least : leb 3 l2 ≡ true = ground arith in rw (cached, least) refl

free_pages :
    (h : Heap) (l2 ptr : ℕ)
    → 12 ≤ l2
    → l2 < 32
    → free_block h l2 ptr ≡ (
        Vmspace.vmspace_free h.world.space (2 ^ l2) ptr true >>= λ space.
        ok (record h { world = record h.world { space = space } }))
unfolding free_block
free_pages h l2 ptr low high =
    let large : leb l2 9 ≡ false = ground arith in
    let word : ltb l2 32 ≡ true = ground arith in rw (large, word) refl

-- A block that kmalloc() returned for at most 2^31 bytes with the header, in the state that it left: it has
-- room for the header and `sz` bytes, and kfree() is slab_cache_free() of it by the cache that
-- slab_cache_alloc() took it from, or vmspace_free() of the pages that vmspace_alloc() took.
pub kfree-kmalloc :
    (h h' : Heap) (sz p : ℕ)
    → sz + 4 ≤ 2 ^ 31
    → kmalloc h sz ≡ ok (p, h')
    → (l2 : ℕ) × (ptr : ℕ) × (sz + 4 ≤ 2 ^ l2) × (FromCache h h' l2 ptr p ⊎ FromSpace h h' l2 ptr p)
unfolding kmalloc
kfree-kmalloc h h' sz p small returned =
    let word : u32 (sz + 4) ≡ sz + 4 = omega arith in
    let (l2, class, fits, block) = block_log2_lem (sz + 4) (omega arith) small in
    let ((ptr, h1), alloc, rest) =
      >>=-returns (alloc_block h l2) _ (rw (word, class) at returned) in
    let byte : l2 < 2 ^ 8 = elim block [ inl (a, b) ↦ omega arith | inr (a, b) ↦ omega arith ] in
    let (address, state) = returned_pair ptr h1 l2 rest in
    let h2 : Heap = record h1 { world = store_word h1.world ptr (header l2) } in
    let frees : kfree h' p ≡ free_block h' l2 ptr =
      ap (kfree h') address
      ∙ ap (λ x. kfree x (ptr + 4)) state
      ∙ kfree_block h2 l2 ptr byte
          (load_word-store_word h1.world ptr (header l2) (omega (arith, (header-parts l2 byte).0)))
      ∙ ap (λ x. free_block x l2 ptr) (sym state) in
    (
      l2,
      ptr,
      fits,
      elim block [
        | inl (low, high) ↦
            let (c, w, gives, heap) = alloc_cached h h1 l2 ptr high alloc in
            let own : (set_cache h (l2 - 3) c w).caches (l2 - 3) ≡ c = own_cache h (l2 - 3) c w in
            let cache_is : h'.caches (l2 - 3) ≡ c =
              ap (λ g. g.caches (l2 - 3)) state ∙ ap (λ g. g.caches (l2 - 3)) heap ∙ own in
            let world_is : h'.world ≡ store_word w ptr (header l2) =
              ap (λ g. g.world) state ∙ ap (λ g. store_word g.world ptr (header l2)) heap in
            inl (
              low,
              high,
              address,
              c,
              w,
              gives,
              frees
                  ∙ free_cached h' l2 ptr low high
                  ∙ ap (λ d. Slab.slab_cache_free d h'.world ptr >>= put_back l2) cache_is
                  ∙ ap (λ v. Slab.slab_cache_free c v ptr >>= put_back l2) world_is,
            )
        | inr (low, high) ↦
            let (space, gives, heap) = alloc_pages h h1 l2 ptr low alloc in
            let space_is : h'.world.space ≡ space = ap (λ g. g.world.space) state ∙ heap in
            inr (
              low,
              high,
              address,
              space,
              gives,
              frees
                  ∙ free_pages h' l2 ptr low high
                  ∙ ap (λ s. Vmspace.vmspace_free s (2 ^ l2) ptr true >>= put_space) space_is,
            )
      ],
    )
  where
    put_back : ℕ → SlabCache × World → Outcome Heap
    put_back l2 (c, w) = ok (set_cache h' (l2 - 3) c w)

    put_space : Vmspace.State → Outcome Heap
    put_space space = ok (record h' { world = record h'.world { space = space } })

    own_cache : (h : Heap) (i : ℕ) (c : SlabCache) (w : World) → (set_cache h i c w).caches i ≡ c
    own_cache h i c w = let same : i == i ≡ true = ground arith in rw same refl

    returned_pair :
        (ptr : ℕ) (h1 : Heap) (l2 : ℕ)
        → ◌>>◌ {B = ℕ × Heap}
            (defined (ltb (ptr + 4) (2 ^ 32)))
            (ok (ptr + 4, record h1 { world = store_word h1.world ptr (header l2) }))
          ≡ ok (p, h')
        → (p ≡ ptr + 4) × (h' ≡ record h1 { world = store_word h1.world ptr (header l2) })
    returned_pair ptr h1 l2 rest = elim (Bool-cases (ltb (ptr + 4) (2 ^ 32))) [
      | inl inside ↦ (let e = rw inside at rest in (cc, cc))
      | inr outside ↦ absurd (undefined_ok (rw outside at rest))
    ]
