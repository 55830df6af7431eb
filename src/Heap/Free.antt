-- ===== src/Heap/Free.antt =====
-- `kfree` and `heap_used_bytes` against the list of blocks.
use tet_os.Prelude.{
  ℕ, zero, suc, ◌+◌, ◌-◌, ◌*◌, ◌^◌, ◌≤◌, ◌<◌, ◌≡◌, ◌≢◌, refl, ap, ◌∙◌, List, [], ◌∷◌, true, false,
  not, arith, length, ◌==◌, if◌then◌else◌, update, add32, sub32, Bool-cases, ◌⊎◌, inl, inr, subst,
}
use tet_os.Heap.{
  Header, Heap, heap_start, heap_magic, header_size, max_blocks, merge_next, kfree, used_loop,
  heap_used_bytes,
}
use tet_os.Heap.Blocks.{Block, behind, header, Chain, Chain-frame, Chain-le, heap_end, IsHeap}
use tet_os.Heap.Malloc.{live}

-- The freed block together with the next one, if that is free.
abbrev merge : Block → List Block → List Block
merge b [] = b ∷ []
merge b (c ∷ cs) =
    if c.used
    then b ∷ c ∷ cs
    else record { size = b.size + header_size + c.size; used = b.used } ∷ cs

-- The block at `at` is freed.
unfoldable pub free_at : ℕ → ℕ → List Block → List Block
free_at at a [] = []
free_at at a (b ∷ bs) =
    if at == a
    then merge (record { size = b.size; used = false }) bs
    else b ∷ free_at at (behind a b) bs

-- `at` is the address of a block of the chain.
abbrev pub IsBlock : ℕ → ℕ → List Block → Type 0
IsBlock at a [] = ⊥
IsBlock at a (b ∷ bs) = (at ≡ a) ⊎ IsBlock at (behind a b) bs

-- What `kfree` does to the headers when the pointer is not null and the magic number is right.
abbrev release : ℕ → Heap → Heap
release at h =
    merge_next at (record h { headers = update h.headers at (record (h.headers at) { used = 0 }) })

merge_next-front : (at x : ℕ) (h : Heap) → x ≢ at → (merge_next at h).headers x ≡ h.headers x
unfolding merge_next
merge_next-front at x h ne = ground arith

merge_next-head : (at : ℕ) (h : Heap) → (merge_next at h).heap_head ≡ h.heap_head
unfolding merge_next
merge_next-head at h = ground arith

release-front : (at x : ℕ) (h : Heap) → x ≢ at → (release at h).headers x ≡ h.headers x
release-front at x h ne =
    merge_next-front at x
      (record h { headers = update h.headers at (record (h.headers at) { used = 0 }) }) ne
    ∙ ground arith

release-Chain :
    (a end : ℕ) (h : Heap) (b : Block) (bs : List Block)
    → 0 < a
    → h.headers a ≡ header end a b
    → Chain h.headers end (behind a b) bs
    → end < 2 ^ 31
    → Chain (release a h).headers end a (merge (record { size = b.size; used = false }) bs)
unfolding merge_next
release-Chain a end h b [] p q c e = (p, ground (arith, q), omega (arith, c))
release-Chain a end h b (n ∷ bs) p q (p', q', c) e = elim (Bool-cases n.used) [
  | inl used ↦ rw used (
    p,
    ground (arith, q, q', le),
    (
      p',
      ground (arith, q, q', le),
      Chain-frame end (behind (behind a b) n) bs (λ x l. ground (arith, q, q', le)) c,
    ),
  )
  | inr free ↦
      let rest : Chain (release a h).headers end (behind (behind a b) n) bs =
        Chain-frame end (behind (behind a b) n) bs (λ x l. release-front a x h (omega arith)) c in
      rw free (
        p,
        ground (arith, q, q', le),
        subst (λ x. Chain (release a h).headers end x bs) same_end rest,
      )
]
  where
    le : behind (behind a b) n + header_size * length bs ≤ end
    le = Chain-le h.headers end (behind (behind a b) n) bs c

    same_end : behind (behind a b) n ≡ a + header_size + (b.size + header_size + n.size)
    same_end = omega arith

-- Freeing a block further on leaves the headers in front as they are.
IsBlock-le : (at a : ℕ) (bs : List Block) → IsBlock at a bs → a ≤ at
IsBlock-le at a [] i = absurd i
IsBlock-le at a (b ∷ bs) (inl e) = omega arith
IsBlock-le at a (b ∷ bs) (inr i) = omega (arith, IsBlock-le at (behind a b) bs i)

free_at-Chain :
    (at a end : ℕ) (h : Heap) (bs : List Block)
    → IsBlock at a bs
    → Chain h.headers end a bs
    → end < 2 ^ 31
    → Chain (release at h).headers end a (free_at at a bs)
unfolding free_at
free_at-Chain at a end h [] i c e = absurd i
free_at-Chain at a end h (b ∷ bs) i (p, q, c) e = elim (Bool-cases (at == a)) [
  | inl here ↦
      let same : at ≡ a = ground arith in rw (here, same) (release-Chain a end h b bs p q c e)
  | inr there ↦
      let further : IsBlock at (behind a b) bs = elim i [
        | inl e' ↦ absurd (ground arith)
        | inr j ↦ j
      ] in
      let ne : a ≢ at = omega (arith, IsBlock-le at (behind a b) bs further) in
      rw there (p, release-front at a h ne ∙ q, free_at-Chain at (behind a b) end h bs further c e)
]

IsBlock-header :
    (at a end : ℕ) (h : Heap) (bs : List Block)
    → IsBlock at a bs
    → Chain h.headers end a bs
    → end < 2 ^ 31
    → ((h.headers at).magic ≡ heap_magic) × (0 < at) × (at + header_size ≤ end)
IsBlock-header at a end h [] i c e = absurd i
IsBlock-header at a end h (b ∷ bs) (inl i) (p, q, c) e =
    rw (i, q) (refl, p, omega (arith, Chain-le h.headers end (behind a b) bs c))
IsBlock-header at a end h (b ∷ bs) (inr i) (p, q, c) e =
    IsBlock-header at (behind a b) end h bs i c e

-- Freeing takes the block at that address from those in use, and no other.
abbrev pub without : ℕ → List (ℕ × ℕ) → List (ℕ × ℕ)
without at [] = []
without at ((a, n) ∷ l) = if at == a then without at l else (a, n) ∷ without at l

without-above : (at a : ℕ) (bs : List Block) → at < a → without at (live a bs) ≡ live a bs
without-above at a [] l = refl
without-above at a (b ∷ bs) l = ground (arith, without-above at (behind a b) bs)

abbrev pub total : List (ℕ × ℕ) → ℕ
total [] = 0
total ((a, n) ∷ l) = n + total l

merge-live :
    (a : ℕ) (b : Block) (bs : List Block)
    → live a (merge (record { size = b.size; used = false }) bs) ≡ live (behind a b) bs
merge-live a b [] = refl
merge-live a b (n ∷ bs) = elim (Bool-cases n.used) [
  | inl used ↦ rw used
  | inr free ↦ rw free (ap (λ x. live x bs) same_end)
]
  where
    same_end : a + header_size + (b.size + header_size + n.size) ≡ behind (behind a b) n
    same_end = omega arith

free_at-live :
    (at a : ℕ) (bs : List Block)
    → IsBlock at a bs
    → live a (free_at at a bs) ≡ without at (live a bs)
unfolding free_at
free_at-live at a [] i = absurd i
free_at-live at a (b ∷ bs) i = elim (Bool-cases (at == a)) [
  | inl here ↦
      let same : at ≡ a = ground arith in
      let above = without-above at (behind a b) bs (omega arith) in
      rw here (merge-live a b bs ∙ ground (arith, above))
  | inr there ↦
      let further : IsBlock at (behind a b) bs = elim i [
        | inl e' ↦ absurd (ground arith)
        | inr j ↦ j
      ] in
      let ih = free_at-live at (behind a b) bs further in rw there (ground (arith, ih))
]

-- `kfree` of a pointer to a block of a heap that is one chain leaves such a chain, from which the
-- block is no longer in use; all other blocks in use keep their addresses and sizes.
pub kfree_lem :
    (at : ℕ) (h : Heap) (bs : List Block)
    → IsHeap h bs
    → IsBlock at heap_start bs
    → (bs' : List Block) × IsHeap (kfree (at + header_size) h) bs'
      × (live heap_start bs' ≡ without at (live heap_start bs))
unfolding kfree
kfree_lem at h bs v i =
    let head = IsBlock-header at heap_start heap_end h bs i v.chain (omega arith) in
    let there : sub32 (at + header_size) header_size ≡ at = omega (arith, head) in
    let real : (at + header_size == 0) ≡ false = ground arith in
    let magic : not ((h.headers at).magic == heap_magic) ≡ false = ground (arith, head) in
    (
      free_at at heap_start bs,
      rw (there, real, magic)
          (record {
            head = merge_next-head at _ ∙ v.head;
            chain = free_at-Chain at heap_start heap_end h bs i v.chain (omega arith);
          }),
      free_at-live at heap_start bs i,
    )

used_loop-sum :
    (fuel a end used : ℕ) (h : Heap) (bs : List Block)
    → Chain h.headers end a bs
    → length bs < fuel
    → used + (end - a) < 2 ^ 32
    → used_loop fuel (if a == end then 0 else a) used h ≡ used + total (live a bs)
unfolding used_loop
used_loop-sum zero a end used h bs c l e = absurd (omega arith)
used_loop-sum (suc fuel) a end used h [] c l e =
    let there : (a == end) ≡ true = ground arith in rw there (omega arith)
used_loop-sum (suc fuel) a end used h (b ∷ bs) (p, q, c) l e =
    let le = Chain-le h.headers end (behind a b) bs c in
    let inside : (a == end) ≡ false = ground (arith, le) in
    let real : (a == 0) ≡ false = ground arith in
    let link : (h.headers a).next ≡ (if behind a b == end then 0 else behind a b) =
      ap (λ (x : Header). x.next) q in
    let acc : (if (h.headers a).used == 0 then used else add32 used (h.headers a).size)
        ≡ (if b.used then used + b.size else used) =
      ground (arith, q, le) in
    let rest =
      used_loop-sum fuel (behind a b) end (if b.used then used + b.size else used) h bs c
        (omega arith) (ground (arith, le)) in
    rw (inside, real, acc, link) (rest ∙ ground arith)

-- `heap_used_bytes` is the sum of the sizes of the blocks in use.
heap_used_bytes_lem :
    (h : Heap) (bs : List Block) → IsHeap h bs → heap_used_bytes h ≡ total (live heap_start bs)
unfolding heap_used_bytes
heap_used_bytes_lem h bs v =
    ap (λ a. used_loop (suc max_blocks) a 0 h) v.head
    ∙ used_loop-sum (suc max_blocks) heap_start heap_end 0 h bs v.chain
        (omega (arith, Chain-le h.headers heap_end heap_start bs v.chain)) (omega arith)
    ∙ omega arith
