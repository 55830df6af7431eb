-- ===== src/Heap.antt =====
-- kernel/heap/heap.c: the kernel's heap, first fit over a linked list of block headers in memory.
-- A header is a record at its address; the null pointer is 0. The headers of different blocks never
-- overlap (`Blocks.Chain`), so a write to one is seen as a write to no other.
pub mod Blocks
pub mod Malloc
pub mod Free
mod Tests
use tet_os.Prelude.{
  ℕ, zero, suc, ◌+◌, ◌-◌, ◌*◌, ◌/◌, ◌%◌, ◌^◌, not, ◌&&◌, ltb, leb, ◌==◌, if◌then◌else◌, update,
  add32, sub32,
}

-- `block_header_t`
pub record Header : Type 0 where
  pub magic : ℕ
  pub size : ℕ
  pub used : ℕ
  pub next : ℕ

pub record Heap : Type 0 where
  pub headers : ℕ → Header
  pub heap_head : ℕ

abbrev pub heap_start : ℕ
heap_start = 0x400000

abbrev pub heap_size : ℕ
heap_size = 4 * 1024 * 1024

abbrev pub heap_magic : ℕ
heap_magic = 0xC0FFEE00

-- `sizeof(block_header_t)` on the 32-bit target.
abbrev pub header_size : ℕ
header_size = 16

-- No list has more blocks than headers fit into the heap.
abbrev pub max_blocks : ℕ
max_blocks = heap_size / header_size

unfoldable pub heap_init : Heap → Heap
heap_init h = record {
  heap_head = heap_start;
  headers =
      update h.headers heap_start
        (record { magic = heap_magic; size = heap_size - header_size; used = 0; next = 0 });
}

-- The branch of `kmalloc` that splits the block at `current`.
unfoldable pub split_block : ℕ → ℕ → Heap → Heap
split_block current size h =
    let block = h.headers current in
    let split = add32 (add32 current header_size) size in
    let headers = update h.headers split (record {
      magic = heap_magic;
      size = sub32 (sub32 block.size size) header_size;
      used = 0;
      next = block.next;
    }) in
    record h { headers = update headers current (record block { next = split; size = size }) }

unfoldable pub mark_used : ℕ → Heap → Heap
mark_used current h = record h {
  headers = update h.headers current (record (h.headers current) { used = 1 });
}

-- What `kmalloc` does with the block that it takes.
unfoldable pub take_block : ℕ → ℕ → Heap → ℕ × Heap
take_block current size h = (
  add32 current header_size,
  mark_used current (
      if ltb (add32 (add32 size header_size) 16) (h.headers current).size
      then split_block current size h
      else h),
)

-- The `while (current)` of `kmalloc`.
unfoldable pub malloc_loop : ℕ → ℕ → ℕ → Heap → ℕ × Heap
malloc_loop zero current size h = (0, h)
malloc_loop (suc fuel) current size h =
    let rest = malloc_loop fuel (h.headers current).next size h in
    if current == 0
    then (0, h)
    else if (h.headers current).used == 0 && leb size (h.headers current).size
    then take_block current size h
    else rest

unfoldable pub kmalloc : ℕ → Heap → ℕ × Heap
kmalloc size h = malloc_loop (suc max_blocks) h.heap_head size h

-- The merge with the next block at the end of `kfree`.
unfoldable pub merge_next : ℕ → Heap → Heap
merge_next at h =
    let block = h.headers at in
    let next = h.headers block.next in
    if not (block.next == 0) && next.used == 0
    then record h {
      headers = update h.headers at (record block {
        size = add32 block.size (add32 header_size next.size);
        next = next.next;
      });
    }
    else h

unfoldable pub kfree : ℕ → Heap → Heap
kfree ptr h =
    let at = sub32 ptr header_size in
    let freed = record h { headers = update h.headers at (record (h.headers at) { used = 0 }) } in
    if ptr == 0
    then h
    else if not ((h.headers at).magic == heap_magic)
    then h
    else merge_next at freed

-- The `while (current)` of `heap_used_bytes`.
unfoldable pub used_loop : ℕ → ℕ → ℕ → Heap → ℕ
used_loop zero current used h = used
used_loop (suc fuel) current used h =
    let rest =
      used_loop fuel (h.headers current).next
        (if (h.headers current).used == 0 then used else add32 used (h.headers current).size) h in
    if current == 0 then used else rest

unfoldable pub heap_used_bytes : Heap → ℕ
heap_used_bytes h = used_loop (suc max_blocks) h.heap_head 0 h
