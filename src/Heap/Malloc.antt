-- ===== src/Heap/Malloc.antt =====
-- `kmalloc` against a search of the list of blocks.
use tet_os.Prelude.{
  ℕ, zero, suc, ◌+◌, ◌-◌, ◌^◌, ◌≤◌, ◌<◌, ◌≡◌, refl, ap, ◌∙◌, List, [], ◌∷◌, ◌++◌, true, false, not,
  Option, none, some, arith, length, ltb, leb, ◌==◌, ◌&&◌, if◌then◌else◌, add32, Bool-cases, ◌⊎◌,
  inl, inr, subst,
}
use tet_os.Heap.{
  Header, Heap, heap_start, header_size, max_blocks, split_block, mark_used, take_block,
  malloc_loop, kmalloc,
}
use tet_os.Heap.Blocks.{Block, behind, header, Chain, Chain-frame, Chain-le, heap_end, IsHeap}
use native.Mathlib.Nat.{le_refl}

-- First fit: the address of the block taken, and the list after it.
unfoldable pub first_fit : ℕ → ℕ → List Block → Option (ℕ × List Block)
first_fit size a [] = none
first_fit size a (b ∷ bs) =
    let rest = first_fit size (behind a b) bs in
    if not b.used && leb size b.size
    then some (
      a,
      (if ltb (size + 32) b.size
          then record { size = size; used = true }
            ∷ record { size = b.size - size - header_size; used = false }
            ∷ bs
          else record { size = b.size; used = true } ∷ bs),
    )
    else elim rest [ none ↦ none | some (at, bs') ↦ some (at, b ∷ bs') ]

-- What the loop has done from the block at `a` on: nothing in front of `a` has changed.
abbrev Agrees : Heap → ℕ → ℕ → Option (ℕ × List Block) → ℕ × Heap → Type 0
Agrees h end a none out = out ≡ (0, h)
Agrees h end a (some (at, bs)) out =
    (out.0 ≡ at + header_size)
    × (out.1.heap_head ≡ h.heap_head)
    × Chain out.1.headers end a bs
    × ((x : ℕ) → x < a → out.1.headers x ≡ h.headers x)

module _ (size a end : ℕ) (h : Heap) (b : Block) (bs : List Block) (p : 0 < a)
    (q : h.headers a ≡ header end a b) (c : Chain h.headers end (behind a b) bs) (e : end < 2 ^ 31)
    (free : b.used ≡ false) (fits : size ≤ b.size) where
  -- The block is large enough for a second header.
  split-Agrees :
      size + 32 < b.size
      → Agrees h end a
          (some (
            a,
            record { size = size; used = true }
                ∷ record { size = b.size - size - header_size; used = false }
                ∷ bs,
          ))
          (add32 a header_size, mark_used a (split_block a size h))
  unfolding mark_used split_block
  split-Agrees large =
      let le = Chain-le h.headers end (behind a b) bs c in
      (
        omega (arith, le),
        refl,
        (
          p,
          ground (arith, q, le),
          (
            omega arith,
            ground (arith, q, le),
            subst (λ x. Chain (mark_used a (split_block a size h)).headers end x bs) same_end
                (Chain-frame end (behind a b) bs (λ x l. ground (arith, le)) c),
          ),
        ),
        (λ x l. ground (arith, le)),
      )
    where
      same_end : behind a b ≡ a + header_size + size + header_size + (b.size - size - header_size)
      same_end = omega arith

  whole-Agrees :
      Agrees h end a
        (some (a, record { size = b.size; used = true } ∷ bs))
        (add32 a header_size, mark_used a h)
  unfolding mark_used
  whole-Agrees =
      let le = Chain-le h.headers end (behind a b) bs c in
      (
        omega (arith, le),
        refl,
        (p, ground (arith, q), Chain-frame end (behind a b) bs (λ x l. ground arith) c),
        (λ x l. ground arith),
      )

  take_block-Agrees :
      Agrees h end a
        (some (
          a,
          (if ltb (size + 32) b.size
              then record { size = size; used = true }
                ∷ record { size = b.size - size - header_size; used = false }
                ∷ bs
              else record { size = b.size; used = true } ∷ bs),
        ))
        (take_block a size h)
  unfolding take_block
  take_block-Agrees =
      let le = Chain-le h.headers end (behind a b) bs c in
      let same : ltb (add32 (add32 size header_size) 16) (h.headers a).size
          ≡ ltb (size + 32) b.size =
        ground (arith, q, le) in
      rw same (elim (Bool-cases (ltb (size + 32) b.size)) [
        | inl large ↦ rw large (split-Agrees (ground arith))
        | inr small ↦ rw small whole-Agrees
      ])

-- The search goes on behind a block that does not serve.
skip :
    (a end : ℕ) (h : Heap) (b : Block) (found : Option (ℕ × List Block)) (out : ℕ × Heap)
    → 0 < a
    → h.headers a ≡ header end a b
    → Agrees h end (behind a b) found out
    → Agrees h end a (elim found [ none ↦ none | some (at, bs') ↦ some (at, b ∷ bs') ]) out
skip a end h b none out p q r = r
skip a end h b (some (at, bs)) out p q (result, head, chain, front) =
    (result, head, (p, front a (omega arith) ∙ q, chain), λ x l. front x (omega arith))

malloc_loop-Agrees :
    (fuel size a end : ℕ) (h : Heap) (bs : List Block)
    → Chain h.headers end a bs
    → length bs < fuel
    → end < 2 ^ 31
    → Agrees h end a (first_fit size a bs) (malloc_loop fuel (if a == end then 0 else a) size h)
unfolding malloc_loop first_fit
malloc_loop-Agrees zero size a end h bs c l e = absurd (omega arith)
malloc_loop-Agrees (suc fuel) size a end h [] c l e =
    let there : (a == end) ≡ true = ground arith in rw there
malloc_loop-Agrees (suc fuel) size a end h (b ∷ bs) (p, q, c) l e =
    let le = Chain-le h.headers end (behind a b) bs c in
    let inside : (a == end) ≡ false = ground (arith, le) in
    let real : (a == 0) ≡ false = ground arith in
    let test : ((h.headers a).used == 0 && leb size (h.headers a).size)
        ≡ (not b.used && leb size b.size) =
      ground (arith, q) in
    let link : (h.headers a).next ≡ (if behind a b == end then 0 else behind a b) =
      ap (λ (x : Header). x.next) q in
    let rest = malloc_loop-Agrees fuel size (behind a b) end h bs c (omega arith) e in
    rw (inside, real, test, link)
      (elim (Bool-cases (not b.used && leb size b.size)) [
        | inl serves ↦
            rw serves (take_block-Agrees size a end h b bs p q c e (ground arith) (ground arith))
        | inr not_this ↦ rw not_this (skip a end h b (first_fit size (behind a b) bs) _ p q rest)
      ])

-- The blocks in use, with their addresses.
abbrev pub live : ℕ → List Block → List (ℕ × ℕ)
live a [] = []
live a (b ∷ bs) = if b.used then (a, b.size) ∷ live (behind a b) bs else live (behind a b) bs

-- Taking a block puts it among those in use, and leaves the others as they are.
abbrev pub Adds : List (ℕ × ℕ) → ℕ → ℕ → List (ℕ × ℕ) → Type 0
Adds old at size new =
    (front : List (ℕ × ℕ)) × (back : List (ℕ × ℕ)) × (n : ℕ) × (old ≡ front ++ back)
    × (new ≡ front ++ (at, n) ∷ back)
    × (size ≤ n)

Adds-cons :
    (x : ℕ × ℕ) {old new : List (ℕ × ℕ)} {at size : ℕ}
    → Adds old at size new
    → Adds (x ∷ old) at size (x ∷ new)
Adds-cons x (front, back, n, e, f, h) = (x ∷ front, back, n, ap (◌∷◌ x) e, ap (◌∷◌ x) f, h)

-- No free block is large enough.
abbrev pub Exhausted : ℕ → List Block → Type 0
Exhausted size [] = Unit {0}
Exhausted size (b ∷ bs) = ((b.used ≡ true) ⊎ (b.size < size)) × Exhausted size bs

abbrev pub Served : ℕ → ℕ → List Block → Option (ℕ × List Block) → Type 0
Served size a bs none = Exhausted size bs
Served size a bs (some (at, bs')) = Adds (live a bs) at size (live a bs')

Served-skip :
    (size a : ℕ) (b : Block) (bs : List Block) (found : Option (ℕ × List Block))
    → (not b.used && leb size b.size) ≡ false
    → Served size (behind a b) bs found
    → Served size a (b ∷ bs) (elim found [ none ↦ none | some (at, bs') ↦ some (at, b ∷ bs') ])
Served-skip size a b bs none h r = (ground arith, r)
Served-skip size a b bs (some (at, bs')) h r = elim (Bool-cases b.used) [
  | inl used ↦ rw used (Adds-cons (a, b.size) r)
  | inr free ↦ rw free r
]

first_fit-Served : (size a : ℕ) (bs : List Block) → Served size a bs (first_fit size a bs)
unfolding first_fit
first_fit-Served size a [] = tt
first_fit-Served size a (b ∷ bs) = elim (Bool-cases (not b.used && leb size b.size)) [
  | inl serves ↦
      let free : b.used ≡ false = ground arith in
      rw serves (elim (Bool-cases (ltb (size + 32) b.size)) [
        | inl large ↦
            rw (large, free)
              (
                [],
                live (behind a b) bs,
                size,
                refl,
                ap (λ x. (a, size) ∷ live x bs) (ground arith),
                le_refl size,
              )
        | inr small ↦ rw (small, free) ([], live (behind a b) bs, b.size, refl, refl, ground arith)
      ])
  | inr skipped ↦
      rw skipped (Served-skip size a b bs _ skipped (first_fit-Served size (behind a b) bs))
]

-- On a heap that is one chain of blocks `kmalloc` fails, and then changes nothing, only when no
-- free block is as large as asked for. Otherwise the heap is again one chain of blocks; one block
-- more is in use, of at least the size asked for, all others that were in use still are, at their
-- addresses and with their sizes, and the result points behind the new block's header.
pub kmalloc_lem :
    (size : ℕ) (h : Heap) (bs : List Block)
    → IsHeap h bs
    → ((kmalloc size h ≡ (0, h)) × Exhausted size bs)
      ⊎ ((at : ℕ) × (bs' : List Block) × ((kmalloc size h).0 ≡ at + header_size)
          × IsHeap (kmalloc size h).1 bs'
          × Adds (live heap_start bs) at size (live heap_start bs'))
unfolding kmalloc
kmalloc_lem size h bs v =
    simp v.head (result (first_fit size heap_start bs) agrees (first_fit-Served size heap_start bs))
  where
    agrees :
        Agrees h heap_end heap_start
          (first_fit size heap_start bs)
          (malloc_loop (suc max_blocks) heap_start size h)
    agrees =
        malloc_loop-Agrees (suc max_blocks) size heap_start heap_end h bs v.chain
          (omega (arith, Chain-le h.headers heap_end heap_start bs v.chain)) (omega arith)

    result :
        (found : Option (ℕ × List Block))
        → Agrees h heap_end heap_start found (malloc_loop (suc max_blocks) heap_start size h)
        → Served size heap_start bs found
        → let out = malloc_loop (suc max_blocks) heap_start size h in
          ((out ≡ (0, h)) × Exhausted size bs)
          ⊎ ((at : ℕ) × (bs' : List Block) × (out.0 ≡ at + header_size)
              × IsHeap out.1 bs'
              × Adds (live heap_start bs) at size (live heap_start bs'))
    result none e x = inl (e, x)
    result (some (at, bs')) (r, head, chain, _) adds =
        inr (at, bs', r, record { head = head ∙ v.head; chain = chain }, adds)
