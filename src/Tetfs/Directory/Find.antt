-- ===== src/Tetfs/Directory/Find.antt =====
-- `tetfs_find` answers the lowest inode that has the name and the parent.
use native.Mathlib.Decide.{ℕ_discrete}
use tet_os.Prelude.{
  ◌≢◌, ◌/◌, Option, leb, if_cases, ℕ, zero, suc, ◌+◌, ◌≤◌, ◌<◌, ◌≡◌, refl, sym, ap, ◌∙◌, Bool, true,
  false, none, some, arith, if◌then◌else◌, Bool-cases, Option-cases, inl, inr, ◌↔◌,
}
use tet_os.Prelude.Int.{ℤ, pos, negsuc, is_zero}
use tet_os.Strings.{strcmp}
use tet_os.Strings.Compare.{AgreeFrom, strcmp_lem}
use tet_os.Tetfs.Drive.{Ata}
use tet_os.Tetfs.Inode.{Inode, inode_at, tetfs_read_inode}
use tet_os.Tetfs.Directory.{is_entry, find_loop, tetfs_find}

module _ (ata : Ata) (name : ℕ → ℕ) (parent : ℕ) (d : ata.Disk) where
  -- The inode `j` can be read, is in use, and has the name and the parent.
  unfoldable pub entry_at : ℕ → Bool
  entry_at j = elim (tetfs_read_inode ata j d) [
    | none ↦ false
    | some node ↦ is_entry name parent node
  ]

  find_loop-suc :
      (left i : ℕ)
      → find_loop ata (suc left) i name parent d
        ≡ (if entry_at i then some i else find_loop ata left (i + 1) name parent d)
  unfolding find_loop entry_at
  find_loop-suc left i = elim (Option-cases (tetfs_read_inode ata i d)) [
    | inl failed ↦
        let miss : entry_at i ≡ false = rw (failed, entry_at) refl in
        rw (miss, failed, find_loop) refl
    | inr (node, read) ↦
        let here : entry_at i ≡ is_entry name parent node = rw (read, entry_at) refl in
        rw (here, read, find_loop) refl
  ]

  pub find_loop-none :
      (left i : ℕ)
      → find_loop ata left i name parent d ≡ none
      → (j : ℕ) → i ≤ j
      → j < i + left
      → entry_at j ≡ false
  find_loop-none zero i e j l m = absurd (omega arith)
  find_loop-none (suc left) i e j l m = elim (Bool-cases (entry_at i)) [
    | inl hit ↦ absurd (ground (arith, hit, sym (find_loop-suc left i) ∙ e))
    | inr miss ↦ elim (ℕ_discrete i j) [
      | yes at ↦ ap entry_at (sym at) ∙ miss
      | no past ↦
          find_loop-none left (i + 1) (rw miss at (sym (find_loop-suc left i) ∙ e)) j (omega arith)
            (omega arith)
    ]
  ]

  pub find_loop-some :
      (left i k : ℕ)
      → i ≤ k
      → k < i + left
      → entry_at k ≡ true
      → ((j : ℕ) → i ≤ j → j < k → entry_at j ≡ false)
      → find_loop ata left i name parent d ≡ some k
  find_loop-some zero i k l m hit misses = absurd (omega arith)
  find_loop-some (suc left) i k l m hit misses = elim (ℕ_discrete i k) [
    | yes at ↦
        let here : entry_at i ≡ true = ap entry_at at ∙ hit in
        find_loop-suc left i ∙ rw here (ap some at)
    | no past ↦
        let miss : entry_at i ≡ false = misses i (omega arith) (omega arith) in
        find_loop-suc left i
        ∙ rw miss (
            find_loop-some left (i + 1) k (omega arith) (omega arith) hit
              (λ j p q. misses j (omega arith) q))
  ]

  pub find_loop-all :
      (left i : ℕ)
      → ((j : ℕ) → i ≤ j → j < i + left → entry_at j ≡ false)
      → find_loop ata left i name parent d ≡ none
  unfolding find_loop
  find_loop-all zero i misses = refl
  find_loop-all (suc left) i misses =
      let miss : entry_at i ≡ false = misses i (omega arith) (omega arith) in
      find_loop-suc left i
      ∙ rw miss (find_loop-all left (i + 1) (λ j p q. misses j (omega arith) (omega arith)))

  Found : ℕ → ℕ → ℕ → Type 0
  Found left i k =
      (i ≤ k)
      × (k < i + left)
      × (entry_at k ≡ true)
      × ((j : ℕ) → i ≤ j → j < k → entry_at j ≡ false)

  find_loop-Found : (left i k : ℕ) → find_loop ata left i name parent d ≡ some k → Found left i k
  unfolding find_loop Found
  find_loop-Found zero i k e = absurd (ground (arith, e))
  find_loop-Found (suc left) i k e = elim (Bool-cases (entry_at i)) [
    | inl hit ↦
        let at : i ≡ k = ground (arith, hit, sym (find_loop-suc left i) ∙ e) in
        (omega arith, omega arith, ap entry_at (sym at) ∙ hit, λ j p q. absurd (omega arith))
    | inr miss ↦
        let (l, m, hit, misses) =
          find_loop-Found left (i + 1) k (rw miss at (sym (find_loop-suc left i) ∙ e)) in
        (
          omega arith,
          omega arith,
          hit,
          λ j p q. elim (ℕ_discrete i j) [
            | yes at ↦ ap entry_at (sym at) ∙ miss
            | no past ↦ misses j (omega arith) q
          ],
        )
  ]

-- A name that was read ends within its 51 bytes, as the model reads it.
end_byte : Option Inode → ℕ
end_byte none = 0
end_byte (some node) = node.name 51

read_end : (ata : Ata) (j : ℕ) (d : ata.Disk) → end_byte (tetfs_read_inode ata j d) ≡ 0
unfolding tetfs_read_inode inode_at end_byte
read_end ata j d =
    if_cases (λ o. end_byte o ≡ 0) (leb 32 j) (λ h. refl)
      (λ h. elim (Option-cases (ata.ata_read (257 + j / 8) d)) [
        | inl failed ↦ rw failed refl
        | inr (buf, read) ↦ rw read refl
      ])

read_name_end :
    (ata : Ata) (j : ℕ) (d : ata.Disk) (node : Inode)
    → tetfs_read_inode ata j d ≡ some node
    → node.name 51 ≡ 0
unfolding end_byte
read_name_end ata j d node e = ap end_byte (sym e) ∙ read_end ata j d

is_zero_iff : (z : ℤ) → (is_zero z ≡ true) ↔ (z ≡ pos 0)
is_zero_iff (pos n) = (λ h. ground (arith, h), λ e. ground (arith, e))
is_zero_iff (negsuc n) = (λ h. absurd (ground (arith, h)), λ e. absurd (ground (arith, e)))

module _ (ata : Ata) (name : ℕ → ℕ) (parent : ℕ) (d : ata.Disk) where
  -- The inode `j` can be read and is in use, its parent is `parent`, and its name agrees with `name`
  -- on every byte up to the first terminator.
  abbrev pub IsNamed : ℕ → Type 0
  IsNamed j =
      (node : Inode) × (tetfs_read_inode ata j d ≡ some node)
      × (node.type ≢ 0)
      × (node.parent ≡ parent)
      × AgreeFrom 0 node.name name

  is_entry_iff :
      (node : Inode)
      → node.name 51 ≡ 0
      → (is_entry name parent node ≡ true)
        ↔ ((node.type ≢ 0) × (node.parent ≡ parent) × AgreeFrom 0 node.name name)
  unfolding is_entry
  is_entry_iff node end =
      let (agree, same) = strcmp_lem 51 51 node.name name end (omega arith) in
      let (to, from) = is_zero_iff (strcmp 51 node.name name) in
      (
        (λ h.
            let parts : (node.type ≢ 0)
                × (node.parent ≡ parent)
                × (is_zero (strcmp 51 node.name name) ≡ true) =
              (ground (arith, h), ground (arith, h), ground (arith, h)) in
            (parts.0, parts.1, agree (to parts.2))),
        (λ (used, at, agrees).
            let zero_here = from (same agrees) in ground (arith, used, at, zero_here)),
      )

  entry_at-IsNamed : (j : ℕ) → (entry_at ata name parent d j ≡ true) ↔ IsNamed j
  unfolding entry_at
  entry_at-IsNamed j = elim (Option-cases (tetfs_read_inode ata j d)) [
    | inl failed ↦ (
      (λ h. absurd (ground (arith, rw (failed, entry_at) at h))),
      (λ (node, read, used, at, agrees). absurd (ground (arith, sym failed ∙ read))),
    )
    | inr (node, read) ↦
        let here : entry_at ata name parent d j ≡ is_entry name parent node =
          rw (read, entry_at) refl in
        let (to, from) = is_entry_iff node (read_name_end ata j d node read) in
        (
          (λ h. let (used, at, agrees) = to (sym here ∙ h) in (node, read, used, at, agrees)),
          (λ (node', read', used, at, agrees).
              let (to', from') = is_entry_iff node' (read_name_end ata j d node' read') in
              let here' : entry_at ata name parent d j ≡ is_entry name parent node' =
                rw (read', entry_at) refl in
              here' ∙ from' (used, at, agrees)),
        )
  ]

  entry_at-not : (j : ℕ) → (entry_at ata name parent d j ≡ false) ↔ (¬ IsNamed j)
  entry_at-not j = (
    (λ miss named. ground (arith, miss, (entry_at-IsNamed j).1 named)),
    (λ other. elim (Bool-cases (entry_at ata name parent d j)) [
      | inl hit ↦ absurd (other ((entry_at-IsNamed j).0 hit))
      | inr miss ↦ miss
    ]),
  )

-- `tetfs_find` answers an inode exactly when it is the lowest of the inodes 1 to 31 that can be read,
-- is in use, and has the parent and the name; it fails exactly when none of them is such. The stored
-- name has to agree with the one looked for on every byte up to its terminator.
pub tetfs_find_lem :
    (ata : Ata) (name : ℕ → ℕ) (parent : ℕ) (d : ata.Disk)
    → ((k : ℕ)
        → (tetfs_find ata name parent d ≡ some k) ↔ (
            (1 ≤ k)
            × (k < 32)
            × IsNamed ata name parent d k
            × ((j : ℕ) → 1 ≤ j → j < k → ¬ IsNamed ata name parent d j)))
      × ((tetfs_find ata name parent d ≡ none)
          ↔ ((j : ℕ) → 1 ≤ j → j < 32 → ¬ IsNamed ata name parent d j))
unfolding tetfs_find Found
tetfs_find_lem ata name parent d = (
  (λ k. (
    (λ e.
        let (l, m, hit, misses) = find_loop-Found ata name parent d 31 1 k e in
        (
          l,
          omega arith,
          (entry_at-IsNamed ata name parent d k).0 hit,
          λ j p q. (entry_at-not ata name parent d j).0 (misses j p q),
        )),
    (λ (l, m, hit, misses).
        find_loop-some ata name parent d 31 1 k l (omega arith)
          ((entry_at-IsNamed ata name parent d k).1 hit)
          (λ j p q. (entry_at-not ata name parent d j).1 (misses j p q))),
  )),
  (
    (λ e j p q.
        (entry_at-not ata name parent d j).0
          (find_loop-none ata name parent d 31 1 e j p (omega arith))),
    (λ misses.
        find_loop-all ata name parent d 31 1
          (λ j p q. (entry_at-not ata name parent d j).1 (misses j p (omega arith)))),
  ),
)
