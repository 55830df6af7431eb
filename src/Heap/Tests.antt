-- ===== src/Heap/Tests.antt =====
-- kernel/heap/heap.c on a heap of two blocks, the first in use.
use tet_os.Prelude.{ℕ, ◌+◌, ◌-◌, ◌≡◌, refl, List, [], ◌∷◌, true, false, arith, update, ◌⊎◌, inl}
use tet_os.Heap.{
  Heap, heap_start, heap_size, header_size, heap_init, kmalloc, malloc_loop, take_block,
  split_block, mark_used, kfree, heap_used_bytes, used_loop,
}
use tet_os.Heap.Blocks.{Block, heap_end, header, IsHeap}
use tet_os.Heap.Malloc.{live, Exhausted, Adds, kmalloc_lem}
use tet_os.Heap.Free.{kfree_lem}

abbrev first : Block
first = record { size = 100; used = true }

abbrev second : Block
second = record { size = heap_size - 100 - 32; used = false }

abbrev two : Heap
two = record {
  heap_head = heap_start;
  headers =
      update
        (update (λ _. header heap_end 0 first) (heap_start + 116)
          (header heap_end (heap_start + 116) second))
        heap_start (header heap_end heap_start first);
}

two-IsHeap : IsHeap two (first ∷ second ∷ [])
two-IsHeap = record { head = refl; chain = (omega arith, refl, (omega arith, refl, refl)) }

-- The two calls of an allocation, and a free that merges.
malloc_runs : (kmalloc 100 (heap_init two)).0 ≡ heap_start + 16
unfolding kmalloc malloc_loop take_block split_block mark_used heap_init
malloc_runs = refl

used_runs : heap_used_bytes two ≡ 100
unfolding heap_used_bytes used_loop
used_runs = refl

kmalloc_lem_example :
    ((kmalloc 40 two ≡ (0, two)) × Exhausted 40 (first ∷ second ∷ []))
    ⊎ ((at : ℕ) × (bs' : List Block) × ((kmalloc 40 two).0 ≡ at + header_size)
        × IsHeap (kmalloc 40 two).1 bs'
        × Adds ((heap_start, 100) ∷ []) at 40 (live heap_start bs'))
kmalloc_lem_example = kmalloc_lem 40 two (first ∷ second ∷ []) two-IsHeap

kfree_lem_example :
    (bs' : List Block) × IsHeap (kfree (heap_start + header_size) two) bs'
    × (live heap_start bs' ≡ [])
kfree_lem_example = kfree_lem heap_start two (first ∷ second ∷ []) two-IsHeap (inl refl)
