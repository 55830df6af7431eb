-- ===== src/Tetfs/Directory/Create.antt =====
-- What `tetfs_create` leaves on the disk, and that `tetfs_find` then finds it.
use tet_os.Prelude.{
  ℕ, zero, suc, ◌+◌, ◌≤◌, ◌<◌, ◌^◌, ◌≡◌, ◌≢◌, refl, sym, ap, ◌∙◌, true, false, none, some, arith,
  ◌==◌, if◌then◌else◌, Bool-cases, Option-cases, inl, inr, subst, ◌⊎◌,
}
use tet_os.Prelude.Int.{pos}
use tet_os.Strings.{strcmp}
use tet_os.Strings.Compare.{strcmp_lem}
use tet_os.Tetfs.Drive.{Ata}
use tet_os.Tetfs.Inode.{Inode, tetfs_read_inode, write_inode}
use tet_os.Tetfs.Inode.Store.{tetfs_read_inode-write_inode}
use tet_os.Tetfs.Directory.{copy_name, new_inode, is_entry, tetfs_find, create_loop, tetfs_create}
use tet_os.Tetfs.Directory.Names.{copy_name-agrees, copy_name-end, new_inode-IsInode}
use tet_os.Tetfs.Directory.Find.{entry_at, find_loop-none, find_loop-some}

-- The node that is written has the name it was created with.
new_inode-is_entry :
    (name : ℕ → ℕ) (parent type end : ℕ)
    → name end ≡ 0
    → end ≤ 50
    → type ≢ 0
    → is_entry name parent (new_inode name parent type) ≡ true
unfolding is_entry new_inode
new_inode-is_entry name parent type end stop l used =
    let same : strcmp 51 (copy_name 50 0 name (λ j. 0)) name ≡ pos 0 =
      (strcmp_lem 51 51 (copy_name 50 0 name (λ j. 0)) name
          (copy_name-end 50 0 name (λ j. 0) 51 refl (omega arith)) (omega arith)).1
        (copy_name-agrees 50 0 end name (λ j. 0) stop (omega arith) (omega arith)
          (λ i p. absurd (omega arith))) in
    rw same (ground (arith, used))

module _ (ata : Ata) (name : ℕ → ℕ) (parent type : ℕ) (d : ata.Disk) where
  -- The inode `k` can be read and is free.
  abbrev pub IsFree : ℕ → Type 0
  IsFree k = (node : Inode) × (tetfs_read_inode ata k d ≡ some node) × (node.type ≡ 0)

  create_loop-suc :
      (left i : ℕ)
      → (create_loop ata (suc left) i name parent type d
          ≡ create_loop ata left (i + 1) name parent type d)
        ⊎ (IsFree i
            × (create_loop ata (suc left) i name parent type d ≡ (
              (if (write_inode ata i (new_inode name parent type) d).0 then some i else none),
              (write_inode ata i (new_inode name parent type) d).1,
            )))
  unfolding create_loop
  create_loop-suc left i = elim (Option-cases (tetfs_read_inode ata i d)) [
    | inl failed ↦ inl (rw (failed, create_loop) refl)
    | inr (node, read) ↦ elim (Bool-cases (node.type == 0)) [
      | inl free ↦ inr ((node, read, ground (arith, free)), rw (read, create_loop, free) refl)
      | inr used ↦ inl (rw (read, create_loop, used) refl)
    ]
  ]

  -- What a successful run of the loop did.
  Made : ℕ → ℕ → ℕ → ata.Disk → Type 0
  Made left i k d' =
      (i ≤ k)
      × (k < i + left)
      × IsFree k
      × (d' ≡ (write_inode ata k (new_inode name parent type) d).1)
      × ((write_inode ata k (new_inode name parent type) d).0 ≡ true)

  create_loop-Made :
      (left i k : ℕ)
      → (create_loop ata left i name parent type d).0 ≡ some k
      → Made left i k (create_loop ata left i name parent type d).1
  unfolding create_loop Made
  create_loop-Made zero i k e = absurd (ground (arith, e))
  create_loop-Made (suc left) i k e = elim (create_loop-suc left i) [
    | inl next ↦
        let (l, m, free, disk, ok) =
          create_loop-Made left (i + 1) k (ap (λ r. r.0) (sym next) ∙ e) in
        (omega arith, omega arith, free, ap (λ r. r.1) next ∙ disk, ok)
    | inr (free, here) ↦ elim (Bool-cases (write_inode ata i (new_inode name parent type) d).0) [
      | inl ok ↦
          let at : i ≡ k = ground (arith, ok, ap (λ r. r.0) (sym here) ∙ e) in
          (
            omega arith,
            omega arith,
            subst IsFree at free,
            ap (λ r. r.1) here ∙ ap (λ x. (write_inode ata x (new_inode name parent type) d).1) at,
            ap (λ x. (write_inode ata x (new_inode name parent type) d).0) (sym at) ∙ ok,
          )
      | inr failed ↦ absurd (ground (arith, failed, ap (λ r. r.0) (sym here) ∙ e))
    ]
  ]

  -- On a disk that differs in the new inode alone, the search that failed before finds it.
  found_after :
      (k end : ℕ) (d' : ata.Disk)
      → 1 ≤ k
      → k < 32
      → name end ≡ 0
      → end ≤ 50
      → type ≢ 0
      → tetfs_find ata name parent d ≡ none
      → ((j : ℕ)
          → tetfs_read_inode ata j d'
            ≡ (if k == j then some (new_inode name parent type) else tetfs_read_inode ata j d))
      → tetfs_find ata name parent d' ≡ some k
  unfolding tetfs_find entry_at
  found_after k end d' one l stop m used missing stored =
      find_loop-some ata name parent d' 31 1 k one (omega arith)
        (let self : (k == k) ≡ true = ground arith in
          let here : tetfs_read_inode ata k d' ≡ some (new_inode name parent type) =
            stored k ∙ rw self refl in
          rw (here, entry_at) (new_inode-is_entry name parent type end stop m used))
        (λ j p q.
          let other : (k == j) ≡ false = ground arith in
          let same : tetfs_read_inode ata j d' ≡ tetfs_read_inode ata j d =
            stored j ∙ rw other refl in
          rw (same, entry_at) (find_loop-none ata name parent d 31 1 missing j p (omega arith)))

  -- What does not depend on the length of the name.
  pub created :
      (k : ℕ)
      → ((j : ℕ) → name j < 2 ^ 8)
      → parent < 2 ^ 16
      → type < 2 ^ 8
      → (tetfs_create ata name parent type d).0 ≡ some k
      → (tetfs_find ata name parent d ≡ none)
        × (1 ≤ k)
        × (k < 32)
        × IsFree k
        × ((j : ℕ)
            → tetfs_read_inode ata j (tetfs_create ata name parent type d).1
              ≡ (if k == j then some (new_inode name parent type) else tetfs_read_inode ata j d))
  unfolding tetfs_create Made
  created k bytes p t e = elim (Option-cases (tetfs_find ata name parent d)) [
    | inr (i, exists) ↦ absurd (ground (arith, exists, e))
    | inl missing ↦
        let run : tetfs_create ata name parent type d ≡ create_loop ata 31 1 name parent type d =
          rw (missing, tetfs_create) refl in
        let (one, m, free, disk, ok) = create_loop-Made 31 1 k (ap (λ r. r.0) (sym run) ∙ e) in
        (
          missing,
          one,
          omega arith,
          free,
          λ j.
              ap (tetfs_read_inode ata j) (ap (λ r. r.1) run ∙ disk)
              ∙ tetfs_read_inode-write_inode ata k j (new_inode name parent type) d
                  (new_inode-IsInode name parent type bytes p t) ok,
        )
  ]

  -- A name of bytes whose terminator stands at an offset of at most 50, a parent of 16 bits and a
  -- type of 8 bits other than 0. When `tetfs_create` answers an inode, no inode had the name in that
  -- parent before, the inode is one of 1 to 31 and was free, it is read back with the type, the
  -- parent and the name and with no blocks, every other inode is read as before, and `tetfs_find`
  -- of the name in the parent answers it.
  pub tetfs_create_lem :
      (end k : ℕ)
      → ((j : ℕ) → name j < 2 ^ 8)
      → name end ≡ 0
      → end ≤ 50
      → parent < 2 ^ 16
      → type < 2 ^ 8
      → type ≢ 0
      → (tetfs_create ata name parent type d).0 ≡ some k
      → (tetfs_find ata name parent d ≡ none)
        × (1 ≤ k)
        × (k < 32)
        × IsFree k
        × ((j : ℕ)
            → tetfs_read_inode ata j (tetfs_create ata name parent type d).1
              ≡ (if k == j then some (new_inode name parent type) else tetfs_read_inode ata j d))
        × (tetfs_find ata name parent (tetfs_create ata name parent type d).1 ≡ some k)
  tetfs_create_lem end k bytes stop l p t used e =
      let (missing, one, m, free, stored) = created k bytes p t e in
      (
        missing,
        one,
        m,
        free,
        stored,
        found_after k end (tetfs_create ata name parent type d).1 one m stop l used missing stored,
      )
