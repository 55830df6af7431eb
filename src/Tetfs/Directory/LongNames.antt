-- ===== src/Tetfs/Directory/LongNames.antt =====
-- Names of more than 50 characters, which `tetfs_create` cuts off and `tetfs_find` does not.
use native.Mathlib.Decide.{ℕ_discrete}
use tet_os.Prelude.{
  ℕ, zero, suc, ◌≤◌, ◌<◌, ◌^◌, ◌≡◌, ◌≢◌, refl, sym, ap, ◌∙◌, true, false, Option, none, some, arith,
  ◌==◌, Bool-cases, Option-cases, inl, inr,
}
use tet_os.Prelude.Int.{ℤ, pos, negsuc, is_zero}
use tet_os.Strings.{strcmp}
use tet_os.Strings.Compare.{AgreeFrom, strcmp_lem}
use tet_os.Tetfs.Drive.{Ata}
use tet_os.Tetfs.Inode.{Inode, tetfs_read_inode}
use tet_os.Tetfs.Directory.{new_inode, is_entry, tetfs_find, tetfs_create}
use tet_os.Tetfs.Directory.Names.{copy_name-end}
use tet_os.Tetfs.Directory.Find.{entry_at, find_loop-all}
use tet_os.Tetfs.Directory.Create.{created}

-- The string has no terminator at the offsets 0 to 50.
abbrev pub IsLong : (ℕ → ℕ) → Type 0
IsLong name = (j : ℕ) → j ≤ 50 → name j ≢ 0

-- Every inode that can be read has a terminator at offset 50 of its name.
abbrev pub IsTerminated : (ata : Ata) → ata.Disk → Type 0
IsTerminated ata d =
    (j : ℕ) (node : Inode) → tetfs_read_inode ata j d ≡ some node → node.name 50 ≡ 0

-- A string that agrees with a long one is long itself.
agrees-IsLong :
    (a name : ℕ → ℕ) → AgreeFrom 0 a name → IsLong name → (n i : ℕ) → i < n → n ≤ 51 → a i ≢ 0
agrees-IsLong a name same long zero i l m = absurd (omega arith)
agrees-IsLong a name same long (suc n) i l m = elim (ℕ_discrete i n) [
  | yes at ↦
      let here : a i ≡ name i =
        same i (omega arith)
          (λ j p q. agrees-IsLong a name same long n j (omega arith) (omega arith)) in
      λ z. long i (omega arith) (sym here ∙ z)
  | no past ↦ agrees-IsLong a name same long n i (omega arith) (omega arith)
]

not_entry :
    (name : ℕ → ℕ) (parent : ℕ) (node : Inode)
    → IsLong name
    → node.name 50 ≡ 0
    → is_entry name parent node ≡ false
unfolding is_entry
not_entry name parent node long stop = elim (Bool-cases (is_zero (strcmp 51 node.name name))) [
  | inl same ↦ absurd (
      agrees-IsLong node.name name
        ((strcmp_lem 51 50 node.name name stop (omega arith)).0
          (zero_is (strcmp 51 node.name name) same))
        long 51 50 (omega arith) (omega arith) stop)
  | inr other ↦ rw other (ground arith)
]
  where
    zero_is : (z : ℤ) → is_zero z ≡ true → z ≡ pos 0
    zero_is (pos n) e = ap pos (ground (arith, e))
    zero_is (negsuc n) e = absurd (ground (arith, e))

find-long :
    (ata : Ata) (name : ℕ → ℕ) (parent : ℕ) (d : ata.Disk)
    → IsLong name
    → IsTerminated ata d
    → tetfs_find ata name parent d ≡ none
unfolding tetfs_find entry_at
find-long ata name parent d long ends = find_loop-all ata name parent d 31 1 (λ j p q.
    elim (Option-cases (tetfs_read_inode ata j d)) [
      | inl failed ↦ rw (failed, entry_at) refl
      | inr (node, read) ↦ rw (read, entry_at) (not_entry name parent node long (ends j node read))
    ])

new_inode-end : (name : ℕ → ℕ) (parent type : ℕ) → (new_inode name parent type).name 50 ≡ 0
unfolding new_inode
new_inode-end name parent type = copy_name-end 50 0 name (λ j. 0) 50 refl (omega arith)

-- The byte of the name at offset 50.
last_of : Option Inode → ℕ
last_of none = 0
last_of (some node) = node.name 50

-- A name of bytes without a terminator at the offsets 0 to 50, and a disk each of whose readable
-- inodes has one at offset 50 of its name. After a `tetfs_create` that answers an inode, `tetfs_find`
-- of the name still fails, and a disk of the same kind is left.
pub tetfs_find-tetfs_create_long :
    (ata : Ata) (name : ℕ → ℕ) (parent type k : ℕ) (d : ata.Disk)
    → ((j : ℕ) → name j < 2 ^ 8)
    → IsLong name
    → IsTerminated ata d
    → parent < 2 ^ 16
    → type < 2 ^ 8
    → (tetfs_create ata name parent type d).0 ≡ some k
    → (tetfs_find ata name parent (tetfs_create ata name parent type d).1 ≡ none)
      × IsTerminated ata (tetfs_create ata name parent type d).1
unfolding last_of
tetfs_find-tetfs_create_long ata name parent type k d bytes long ends p t e =
    (find-long ata name parent (tetfs_create ata name parent type d).1 long ends', ends')
  where
    ends' : IsTerminated ata (tetfs_create ata name parent type d).1
    ends' j node read =
        let (missing, one, m, free, stored) = created ata name parent type d k bytes p t e in
        elim (Bool-cases (k == j)) [
          | inl hit ↦
              let here : tetfs_read_inode ata j (tetfs_create ata name parent type d).1
                  ≡ some (new_inode name parent type) =
                stored j ∙ rw hit refl in
              sym (ap last_of (sym here ∙ read)) ∙ new_inode-end name parent type
          | inr miss ↦
              let here : tetfs_read_inode ata j (tetfs_create ata name parent type d).1
                  ≡ tetfs_read_inode ata j d =
                stored j ∙ rw miss refl in
              ends j node (sym here ∙ read)
        ]
