-- ===== src/Tetfs/Bitmap/Alloc.antt =====
-- `alloc_blocks` finds the lowest run of free blocks.
use native.Mathlib.Decide.{ℕ_discrete}
use tet_os.Prelude.{
  ℕ, zero, suc, ◌+◌, ◌-◌, ◌/◌, ◌%◌, ◌^◌, ◌≤◌, ◌<◌, ◌≡◌, ◌≢◌, refl, sym, ap, ◌∙◌, ◌&&◌, Option, none,
  some, subst, arith, ltb, leb, ◌==◌, if◌then◌else◌, u16, u8, if_cases,
}
use tet_os.Bits.{mask, mask-lt, bit-set, bit-clear}
use tet_os.Tetfs.Layout.{tetfs_max_blocks}
use tet_os.Tetfs.Bitmap.{bitmap_get, bitmap_set, mark_run, alloc_run, alloc_blocks}

pub bitmap_get-set :
    (bm : ℕ → ℕ) (b c val : ℕ)
    → bitmap_get (bitmap_set bm b val) c
      ≡ (if b == c then (if val == 0 then 0 else 1) else bitmap_get bm c)
unfolding bitmap_get bitmap_set
bitmap_get-set bm b c val =
    let small : mask (b % 8) < 2 ^ 8 = mask-lt {j = b % 8} {w = 8} (omega arith) in
    let byte : u8 (mask (b % 8)) ≡ mask (b % 8) = omega arith in
    rw byte (
      ground (
        arith,
        bit-set (bm (b / 8)) (b % 8) (c % 8),
        bit-clear 8 (bm (b / 8)) (b % 8) (c % 8) (omega arith) (omega arith) small,
      ))

-- Blocks `s` to `s + n - 1` are free.
abbrev pub IsRun : (ℕ → ℕ) → ℕ → ℕ → Type 0
IsRun bm s n = (j : ℕ) → s ≤ j → j < s + n → bitmap_get bm j ≡ 0

bitmap_get-mark_run :
    (n s : ℕ) (bm : ℕ → ℕ) (j : ℕ)
    → bitmap_get (mark_run n s bm) j ≡ (if leb s j && ltb j (s + n) then 1 else bitmap_get bm j)
unfolding mark_run
bitmap_get-mark_run zero s bm j = ground arith
bitmap_get-mark_run (suc n) s bm j =
    ground (arith, bitmap_get-mark_run n (s + 1) (bitmap_set bm s 1) j, bitmap_get-set bm s j 1)

-- Where the search stands at block `i`: the last `run` blocks are free, the one before them is in
-- use, and no run of `count` free blocks lies in front of `i`.
record Searching (bm : ℕ → ℕ) (count i start run : ℕ) : Type 0 where
  begins : run ≢ 0 → start + run ≡ i
  inside : run ≤ i
  short : run < count
  free : IsRun bm (i - run) run
  before : (b : ℕ) → b + 1 + run ≡ i → bitmap_get bm b ≢ 0
  none_yet : (s : ℕ) → s + count ≤ i → ¬ IsRun bm s count

-- The lowest run of `count` free blocks below `limit`, marked, or no such run.
abbrev pub Lowest : (ℕ → ℕ) → ℕ → ℕ → Option (ℕ × (ℕ → ℕ)) → Type 0
Lowest bm count limit none = (s : ℕ) → s + count ≤ limit → ¬ IsRun bm s count
Lowest bm count limit (some (s, bm')) =
    (s + count ≤ limit)
    × IsRun bm s count
    × ((r : ℕ) → r < s → ¬ IsRun bm r count)
    × ((j : ℕ) → bitmap_get bm' j ≡ (if leb s j && ltb j (s + count) then 1 else bitmap_get bm j))

module _ (bm : ℕ → ℕ) (count i start run : ℕ) (at : Searching bm count i start run) where
  -- The next block is in use.
  broken-Searching : bitmap_get bm i ≢ 0 → Searching bm count (i + 1) start 0
  broken-Searching used = record {
    begins = λ h. absurd (h refl);
    inside = omega arith;
    short = omega (arith, at.short);
    free = λ j a b. absurd (omega arith);
    before = at_end;
    none_yet = no_run;
  }
    where
      at_end : (b : ℕ) → b + 1 + 0 ≡ i + 1 → bitmap_get bm b ≢ 0
      at_end b e free = let same : i ≡ b = omega arith in used (ap (bitmap_get bm) same ∙ free)

      no_run : (s : ℕ) → s + count ≤ i + 1 → ¬ IsRun bm s count
      no_run s h r = elim (ℕ_discrete (s + count) (i + 1)) [
        | yes e ↦ used (r i (omega (arith, at.short)) (omega arith))
        | no d ↦ at.none_yet s (omega arith) r
      ]

  longer-IsRun : bitmap_get bm i ≡ 0 → IsRun bm (i - run) (run + 1)
  longer-IsRun free j a b = elim (ℕ_discrete i j) [
    | yes e ↦ ap (bitmap_get bm) (sym e) ∙ free
    | no d ↦ at.free j a (omega (arith, at.inside))
  ]

  -- The next block is free, and the run is not yet long enough.
  longer-Searching :
      bitmap_get bm i ≡ 0
      → run + 1 < count
      → Searching bm count (i + 1) (if run == 0 then i else start) (run + 1)
  longer-Searching free more = record {
    begins = λ h. ground (arith, at.begins);
    inside = omega (arith, at.inside);
    short = more;
    free = subst (λ x. IsRun bm x (run + 1)) from (longer-IsRun free);
    before = λ b e. at.before b (omega arith);
    none_yet = no_run;
  }
    where
      from : i - run ≡ i + 1 - (run + 1)
      from = omega arith

      no_run : (s : ℕ) → s + count ≤ i + 1 → ¬ IsRun bm s count
      no_run s h r = elim (ℕ_discrete (s + count) (i + 1)) [
        | yes e ↦
            at.before (i - run - 1) (omega arith) (r (i - run - 1) (omega arith) (omega arith))
        | no d ↦ at.none_yet s (omega arith) r
      ]

  -- The next block makes the run long enough.
  found-Lowest :
      (limit : ℕ)
      → i < limit
      → bitmap_get bm i ≡ 0
      → run + 1 ≡ count
      → Lowest bm count limit (
          some ((if run == 0 then i else start), mark_run count (if run == 0 then i else start) bm))
  found-Lowest limit l free full = rw from (
    omega (arith, at.inside),
    subst (IsRun bm (i - run)) full (longer-IsRun free),
    (λ r h. at.none_yet r (omega arith)),
    bitmap_get-mark_run count (i - run) bm,
  )
    where
      from : (if run == 0 then i else start) ≡ i - run
      from = ground (arith, at.begins)

alloc_run-Lowest :
    (left i start run count : ℕ) (bm : ℕ → ℕ)
    → count < 2 ^ 16
    → Searching bm count i start run
    → Lowest bm count (i + left) (alloc_run left i start run count bm)
unfolding alloc_run
alloc_run-Lowest zero i start run count bm small at = λ s h. at.none_yet s (omega arith)
alloc_run-Lowest (suc left) i start run count bm small at =
    let byte : u16 (run + 1) ≡ run + 1 = omega (arith, at.short) in
    let limit : i + suc left ≡ i + 1 + left = omega arith in
    rw (byte, limit)
      (if_cases (Lowest bm count (i + 1 + left)) (bitmap_get bm i == 0)
        (λ free.
          if_cases (Lowest bm count (i + 1 + left)) (leb count (run + 1))
            (λ full.
              found-Lowest bm count i start run at (i + 1 + left) (omega arith)
                (ground (arith, free)) (ground (arith, full, at.short)))
            (λ more.
              alloc_run-Lowest left (i + 1) (if run == 0 then i else start) (run + 1) count bm small
                (longer-Searching bm count i start run at (ground (arith, free))
                  (ground (arith, more)))))
        (λ used.
          alloc_run-Lowest left (i + 1) start 0 count bm small
            (broken-Searching bm count i start run at (ground (arith, used)))))

-- A count from 1 to 1024: `alloc_blocks` fails only when the map of 1024 blocks holds no run of that
-- many free blocks; otherwise it answers the lowest block such a run begins at, and the blocks of
-- the run, and no others, are marked in the map it leaves.
pub alloc_blocks_lem :
    (bm : ℕ → ℕ) (count : ℕ)
    → 0 < count
    → count ≤ tetfs_max_blocks
    → Lowest bm count tetfs_max_blocks (alloc_blocks bm count)
unfolding alloc_blocks
alloc_blocks_lem bm count some_block few =
    alloc_run-Lowest 1024 0 0 0 count bm (omega arith) record {
      begins = λ h. absurd (h refl);
      inside = omega arith;
      short = some_block;
      free = λ j a b. absurd (omega arith);
      before = λ b e. absurd (omega arith);
      none_yet = λ s h r. absurd (omega arith);
    }
