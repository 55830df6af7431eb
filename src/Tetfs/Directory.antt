-- ===== src/Tetfs/Directory.antt =====
-- The operations of kernel/fs/tetfs.c on the inodes of a directory.
pub mod Names
pub mod Find
pub mod Create
pub mod LongNames
use tet_os.Prelude.{
  ℕ, zero, suc, ◌+◌, Bool, true, false, not, ◌&&◌, Option, none, some, List, [], ◌∷◌, ◌==◌,
  if◌then◌else◌, update, ltb,
}
use tet_os.Prelude.Int.{is_zero}
use tet_os.Strings.{strcmp}
use tet_os.Tetfs.Layout.{tetfs_type_free, tetfs_root_inode, tetfs_max_inodes}
use tet_os.Tetfs.Drive.{Ata}
use tet_os.Tetfs.Inode.{Inode, name_size, empty_inode, tetfs_read_inode, write_inode}

-- `for (j = 0; j < 50 && name[j]; j++) node.name[j] = name[j]; node.name[j] = '\0';`
unfoldable pub copy_name : ℕ → ℕ → (ℕ → ℕ) → (ℕ → ℕ) → ℕ → ℕ
copy_name zero j name dst = update dst j 0
copy_name (suc left) j name dst =
    let rest = copy_name left (j + 1) name (update dst j (name j)) in
    if not (name j == 0) then rest else update dst j 0

-- The node that `tetfs_create` writes.
unfoldable pub new_inode : (ℕ → ℕ) → ℕ → ℕ → Inode
new_inode name parent type = record empty_inode {
  type = type;
  parent = parent;
  name = copy_name 50 0 name (λ j. 0);
}

-- The test of the loop of `tetfs_find` on the inode `i`.
unfoldable pub is_entry : (ℕ → ℕ) → ℕ → Inode → Bool
is_entry name parent node =
    not (node.type == tetfs_type_free)
    && ((node.parent == parent) && is_zero (strcmp name_size node.name name))

module _ (ata : Ata) where
  -- The loop from inode `i` on, the rounds left first.
  unfoldable pub find_loop : ℕ → ℕ → (ℕ → ℕ) → ℕ → ata.Disk → Option ℕ
  find_loop zero i name parent d = none
  find_loop (suc left) i name parent d =
      let rest = find_loop left (i + 1) name parent d in
      elim (tetfs_read_inode ata i d) [
        | none ↦ rest
        | some node ↦ (if is_entry name parent node then some i else rest)
      ]

  -- `none` is the -1 of the C function.
  unfoldable pub tetfs_find : (ℕ → ℕ) → ℕ → ata.Disk → Option ℕ
  tetfs_find name parent d = find_loop 31 1 name parent d

  unfoldable pub create_loop : ℕ → ℕ → (ℕ → ℕ) → ℕ → ℕ → ata.Disk → Option ℕ × ata.Disk
  create_loop zero i name parent type d = (none, d)
  create_loop (suc left) i name parent type d =
      let rest = create_loop left (i + 1) name parent type d in
      let (ok, d') = write_inode ata i (new_inode name parent type) d in
      elim (tetfs_read_inode ata i d) [
        | none ↦ rest
        | some node ↦
            (if not (node.type == tetfs_type_free)
              then rest
              else ((if ok then some i else none), d'))
      ]

  unfoldable pub tetfs_create : (ℕ → ℕ) → ℕ → ℕ → ata.Disk → Option ℕ × ata.Disk
  tetfs_create name parent type d = elim (tetfs_find name parent d) [
    | some i ↦ (none, d)
    | none ↦ create_loop 31 1 name parent type d
  ]

  -- `out[n++] = node` appends to the list of the inodes found so far.
  unfoldable pub list_loop : ℕ → ℕ → ℕ → ℕ → ℕ → ata.Disk → List Inode
  list_loop zero i n parent max d = []
  list_loop (suc left) i n parent max d =
      let rest = list_loop left (i + 1) n parent max d in
      let more = list_loop left (i + 1) (n + 1) parent max d in
      if ltb n max
      then elim (tetfs_read_inode ata i d) [
        | none ↦ rest
        | some node ↦
            (if not (node.type == tetfs_type_free)
                && (not (i == tetfs_root_inode) && (node.parent == parent))
              then node ∷ more
              else rest)
      ]
      else []

  -- The inodes written to `out`; the C function answers their number.
  unfoldable pub tetfs_list : ℕ → ℕ → ata.Disk → List Inode
  tetfs_list parent max d = list_loop tetfs_max_inodes 0 0 parent max d

  unfoldable pub count_loop : ℕ → ℕ → ℕ → ℕ → ata.Disk → ℕ
  count_loop zero i n parent d = n
  count_loop (suc left) i n parent d = elim (tetfs_read_inode ata i d) [
    | none ↦ count_loop left (i + 1) n parent d
    | some node ↦
        count_loop left (i + 1)
          (if not (node.type == tetfs_type_free)
              && (not (i == tetfs_root_inode) && (node.parent == parent))
            then n + 1
            else n)
          parent d
  ]

  unfoldable pub tetfs_count_children : ℕ → ata.Disk → ℕ
  tetfs_count_children parent d = count_loop tetfs_max_inodes 0 0 parent d
