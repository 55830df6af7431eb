-- ===== src/Tetfs/Descriptors/Open.antt =====
-- Which descriptor `fs_open` hands out.
use native.Mathlib.Decide.{ℕ_discrete}
use tet_os.Prelude.{
  ◌⊎◌, Option, ℕ, zero, suc, ◌+◌, ◌≤◌, ◌<◌, ◌≡◌, ◌≢◌, refl, sym, ap, ◌∙◌, none, some, arith, ◌==◌,
  if◌then◌else◌, u16, Bool-cases, Option-cases, inl, inr,
}
use tet_os.Tetfs.Drive.{Ata}
use tet_os.Tetfs.Directory.{tetfs_find, tetfs_create}
use tet_os.Tetfs.Descriptors.{Fs, claim_fd, inode_for, fs_open}

-- The table after descriptor `k`, the lowest one from `fd` on that was unused, is given to `idx`.
pub record Claimed (fs fs' : Fs) (fd left k idx : ℕ) : Type 0 where
  pub least : fd ≤ k
  pub bound : k < fd + left
  pub unused : (fs.fd_table k).used ≡ 0
  pub lower : (j : ℕ) → fd ≤ j → j < k → (fs.fd_table j).used ≢ 0
  pub table :
      (j : ℕ)
      → fs'.fd_table j
        ≡ (if k == j then record { used = 1; inode = u16 idx; offset = 0 } else fs.fd_table j)
  pub mounted : fs'.fs_mounted ≡ fs.fs_mounted

claim_fd-Claimed :
    (left fd idx k : ℕ) (fs : Fs)
    → (claim_fd left fd idx fs).0 ≡ some k
    → Claimed fs (claim_fd left fd idx fs).1 fd left k idx
unfolding claim_fd
claim_fd-Claimed zero fd idx k fs e = absurd (ground (arith, e))
claim_fd-Claimed (suc left) fd idx k fs e = elim (Bool-cases ((fs.fd_table fd).used == 0)) [
  | inl free ↦
      let at : fd ≡ k = ground (arith, free, e) in
      rw free record {
        least = omega arith;
        bound = omega arith;
        unused = ap (λ x. (fs.fd_table x).used) (sym at) ∙ ground (arith, free);
        lower = λ j p q. absurd (omega arith);
        table = λ j.
            ap
              (λ x.
                if x == j then record { used = 1; inode = u16 idx; offset = 0 } else fs.fd_table j)
              at;
        mounted = refl;
      }
  | inr taken ↦
      let rest = claim_fd-Claimed left (fd + 1) idx k fs (rw taken at e) in
      rw taken record {
        least = omega (arith, rest.least);
        bound = omega (arith, rest.bound);
        unused = rest.unused;
        lower = λ j p q. elim (ℕ_discrete fd j) [
          | yes at ↦ λ z.
              let zero_here : (fs.fd_table fd).used ≡ 0 = ap (λ x. (fs.fd_table x).used) at ∙ z in
              ground (arith, taken, zero_here)
          | no past ↦ rest.lower j (omega arith) q
        ];
        table = rest.table;
        mounted = rest.mounted;
      }
]

claim_fd-none :
    (left fd idx : ℕ) (fs : Fs)
    → (claim_fd left fd idx fs).0 ≡ none
    → ((claim_fd left fd idx fs).1 ≡ fs)
      × ((j : ℕ) → fd ≤ j → j < fd + left → (fs.fd_table j).used ≢ 0)
unfolding claim_fd
claim_fd-none zero fd idx fs e = (refl, λ j p q. absurd (omega arith))
claim_fd-none (suc left) fd idx fs e = elim (Bool-cases ((fs.fd_table fd).used == 0)) [
  | inl free ↦ absurd (ground (arith, free, e))
  | inr taken ↦
      let (same, used) = claim_fd-none left (fd + 1) idx fs (rw taken at e) in
      rw taken (
        same,
        λ j p q. elim (ℕ_discrete fd j) [
          | yes at ↦ λ z.
              let zero_here : (fs.fd_table fd).used ≡ 0 = ap (λ x. (fs.fd_table x).used) at ∙ z in
              ground (arith, taken, zero_here)
          | no past ↦ used j (omega arith) (omega arith)
        ],
      )
]

module _ (ata : Ata) (name : ℕ → ℕ) (write : ℕ) (d : ata.Disk) where
  -- The root directory's inode of the name was found; or there was none, and with `write` not 0 a
  -- file was created for it, which left the disk `d'`.
  abbrev pub HasInode : ℕ → ata.Disk → Type 0
  HasInode idx d' =
      ((tetfs_find ata name 0 d ≡ some idx) × (d' ≡ d))
      ⊎ ((tetfs_find ata name 0 d ≡ none)
          × (write ≢ 0)
          × (tetfs_create ata name 0 1 d ≡ (some idx, d')))

  -- There was none, and either `write` is 0, or it could not be created.
  abbrev pub HasNone : ata.Disk → Type 0
  HasNone d' =
      (tetfs_find ata name 0 d ≡ none)
      × (((write ≡ 0) × (d' ≡ d)) ⊎ ((write ≢ 0) × (tetfs_create ata name 0 1 d ≡ (none, d'))))

  -- The cases of `inode_for`.
  inode_for-cases :
      (((inode_for ata name write d).0 ≡ none) × HasNone (inode_for ata name write d).1)
      ⊎ ((idx : ℕ) × ((inode_for ata name write d).0 ≡ some idx)
          × HasInode idx (inode_for ata name write d).1)
  unfolding inode_for
  inode_for-cases = elim (Option-cases (tetfs_find ata name 0 d)) [
    | inr (idx, found) ↦ rw (found, inode_for) (inr (idx, refl, inl (refl, refl)))
    | inl missing ↦ elim (Bool-cases (write == 0)) [
      | inl reading ↦
          let zero_here : write ≡ 0 = ground (arith, reading) in
          rw (missing, inode_for, reading) (inl (refl, (refl, inl (zero_here, refl))))
      | inr writing ↦
          let nonzero : write ≢ 0 = ground (arith, writing) in
          elim (Option-cases (tetfs_create ata name 0 1 d).0) [
            | inl failed ↦
                let run : tetfs_create ata name 0 1 d ≡ (none, (tetfs_create ata name 0 1 d).1) =
                  λ i. (failed i, (tetfs_create ata name 0 1 d).1) in
                rw (missing, inode_for, writing) (inl (failed, (refl, inr (nonzero, run))))
            | inr (idx, created) ↦
                let run : tetfs_create ata name 0 1 d
                    ≡ (some idx, (tetfs_create ata name 0 1 d).1) =
                  λ i. (created i, (tetfs_create ata name 0 1 d).1) in
                rw (missing, inode_for, writing) (inr (idx, created, inr (refl, nonzero, run)))
          ]
    ]
  ]

  -- How `fs_open` ends, from the open files `fs`, with the result `r`.
  pub data Opened (fs : Fs) (r : Option ℕ × Fs × ata.Disk) : Type 0 where
    unmounted : fs.fs_mounted ≡ 0 → r ≡ (none, fs, d) → Opened fs r
    missing : (d' : ata.Disk) → fs.fs_mounted ≢ 0 → HasNone d' → r ≡ (none, fs, d') → Opened fs r
    full :
        (idx : ℕ) (d' : ata.Disk)
        → fs.fs_mounted ≢ 0
        → HasInode idx d'
        → ((j : ℕ) → j < 8 → (fs.fd_table j).used ≢ 0)
        → r ≡ (none, fs, d')
        → Opened fs r
    opened :
        (k idx : ℕ) (fs' : Fs) (d' : ata.Disk)
        → fs.fs_mounted ≢ 0
        → HasInode idx d'
        → Claimed fs fs' 0 8 k idx
        → r ≡ (some k, fs', d')
        → Opened fs r

  -- `fs_open` fails on a file system that is not mounted, and changes nothing. Otherwise it takes the
  -- inode that has the name in the root directory, or creates a file if there is none and `write` is
  -- not 0, and fails if that gives no inode. It fails if the 8 descriptors are all in use, and else
  -- answers the lowest unused one, which then stands for the inode, at offset 0; all others are as
  -- they were. The disk is as the search or the creation left it.
  pub fs_open_lem : (fs : Fs) → Opened fs (fs_open ata name write fs d)
  unfolding fs_open
  fs_open_lem fs = elim (Bool-cases (fs.fs_mounted == 0)) [
    | inl off ↦ unmounted (ground (arith, off)) (rw (fs_open, off) refl)
    | inr on ↦
        let mounted : fs.fs_mounted ≢ 0 = ground (arith, on) in
        let d' = (inode_for ata name write d).1 in
        elim inode_for-cases [
          | inl (none_found, why) ↦ missing d' mounted why (rw (fs_open, on, none_found) refl)
          | inr (idx, found, how) ↦
              let run : fs_open ata name write fs d
                  ≡ ((claim_fd 8 0 idx fs).0, (claim_fd 8 0 idx fs).1, d') =
                rw (fs_open, on, found) refl in
              elim (Option-cases (claim_fd 8 0 idx fs).0) [
                | inl all_used ↦
                    let (same, used) = claim_fd-none 8 0 idx fs all_used in
                    full idx d' mounted how (λ j l. used j (omega arith) (omega arith))
                      (run ∙ (λ i. (all_used i, same i, d')))
                | inr (k, free) ↦
                    opened k idx (claim_fd 8 0 idx fs).1 d' mounted how
                      (claim_fd-Claimed 8 0 idx k fs free)
                      (run ∙ (λ i. (free i, (claim_fd 8 0 idx fs).1, d')))
              ]
        ]
  ]
