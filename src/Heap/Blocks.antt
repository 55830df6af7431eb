-- ===== src/Heap/Blocks.antt =====
-- The heap as the list of its blocks in the order of their addresses.
use tet_os.Prelude.{
  ℕ, ◌+◌, ◌-◌, ◌*◌, ◌≤◌, ◌<◌, ◌≡◌, refl, ◌∙◌, List, [], ◌∷◌, Bool, true, false, arith, length, ◌==◌,
  if◌then◌else◌,
}
use tet_os.Heap.{Header, Heap, header_size, heap_magic, heap_start, heap_size, heap_init}

pub record Block : Type 0 where
  pub size : ℕ
  pub used : Bool

abbrev pub flag : Bool → ℕ
flag true = 1
flag false = 0

-- The address behind a block.
abbrev pub behind : ℕ → Block → ℕ
behind a b = a + header_size + b.size

-- The header that the block `b` at `a` has, in a heap that ends at `end`.
abbrev pub header : ℕ → ℕ → Block → Header
header end a b = record {
  magic = heap_magic;
  size = b.size;
  used = flag b.used;
  next = if behind a b == end then 0 else behind a b;
}

-- From address `a` up to `end` memory is one block behind the other, as the list says.
abbrev pub Chain : (ℕ → Header) → ℕ → ℕ → List Block → Type 0
Chain headers end a [] = a ≡ end
Chain headers end a (b ∷ bs) =
    (0 < a) × (headers a ≡ header end a b) × Chain headers end (behind a b) bs

pub Chain-frame :
    {headers headers' : ℕ → Header} (end a : ℕ) (bs : List Block)
    → ((x : ℕ) → a ≤ x → headers' x ≡ headers x)
    → Chain headers end a bs
    → Chain headers' end a bs
Chain-frame end a [] same c = c
Chain-frame end a (b ∷ bs) same (p, e, c) =
    (p, same a (omega arith) ∙ e, Chain-frame end (behind a b) bs (λ x h. same x (omega arith)) c)

-- So a chain of `n` blocks is at least `16 * n` bytes long.
pub Chain-le :
    (headers : ℕ → Header) (end a : ℕ) (bs : List Block)
    → Chain headers end a bs
    → a + header_size * length bs ≤ end
Chain-le headers end a [] c = omega arith
Chain-le headers end a (b ∷ bs) (p, e, c) = omega (arith, Chain-le headers end (behind a b) bs c)

abbrev pub heap_end : ℕ
heap_end = heap_start + heap_size

-- The heap is one chain from its start to its end.
pub record IsHeap (h : Heap) (bs : List Block) : Type 0 where
  pub head : h.heap_head ≡ heap_start
  pub chain : Chain h.headers heap_end heap_start bs

pub heap_init-IsHeap :
    (h : Heap) → IsHeap (heap_init h) (record { size = heap_size - header_size; used = false } ∷ [])
unfolding heap_init
heap_init-IsHeap h = record { head = refl; chain = (omega arith, refl, refl) }
