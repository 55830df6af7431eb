-- ===== src/Tetfs/Inode/Bytes.antt =====
-- The bytes of an inode read back as the inode.
use tet_os.Prelude.{
  ℕ, ◌+◌, ◌-◌, ◌*◌, ◌%◌, ◌^◌, ◌≤◌, ◌<◌, ◌≡◌, arith, ltb, if◌then◌else◌, ◌⊎◌, fun_ext, ap, sym, ◌∙◌,
}
use tet_os.Tetfs.Inode.{Inode, inode_byte, inode_at, put_inode}

-- Every field of the struct fits its bytes, and the arrays are nothing behind their ends.
pub record IsInode (n : Inode) : Type 0 where
  pub type : n.type < 2 ^ 8
  pub name : (j : ℕ) → n.name j < 2 ^ 8
  pub name_end : (j : ℕ) → 51 ≤ j → n.name j ≡ 0
  pub size : n.size < 2 ^ 32
  pub start_block : n.start_block < 2 ^ 16
  pub block_count : n.block_count < 2 ^ 16
  pub parent : n.parent < 2 ^ 16
  pub reserved : (j : ℕ) → n.reserved j < 2 ^ 8
  pub reserved_end : (j : ℕ) → 2 ≤ j → n.reserved j ≡ 0

module _ (m : ℕ → ℕ) (at : ℕ) (n : Inode) where
  put_inside : (k : ℕ) → k < 64 → put_inode m at n (at + k) ≡ inode_byte n k
  unfolding put_inode
  put_inside k l = let same : at + k - at ≡ k = omega arith in rw same (ground arith)

  put_first : put_inode m at n at ≡ n.type % 256
  unfolding inode_byte
  put_first =
      let here : at + 0 ≡ at = omega arith in
      ap (put_inode m at n) (sym here) ∙ put_inside 0 (omega arith)

  put_name : (j : ℕ) → j < 51 → put_inode m at n (at + 1 + j) ≡ n.name j % 256
  unfolding inode_byte
  put_name j l =
      let here : at + 1 + j ≡ at + (j + 1) = omega arith in
      let back : j + 1 - 1 ≡ j = omega arith in
      rw (here, put_inside (j + 1) (omega arith)) (ground (arith, back))

  put_reserved : (j : ℕ) → j < 2 → put_inode m at n (at + 62 + j) ≡ n.reserved j % 256
  unfolding inode_byte
  put_reserved j l =
      let here : at + 62 + j ≡ at + (j + 62) = omega arith in
      let back : j + 62 - 62 ≡ j = omega arith in
      rw (here, put_inside (j + 62) (omega arith)) (ground (arith, back))

  put_size :
      n.size < 2 ^ 32
      → put_inode m at n (at + 52)
          + 256 * put_inode m at n (at + 53)
          + 65536 * put_inode m at n (at + 54)
          + 16777216 * put_inode m at n (at + 55)
        ≡ n.size
  unfolding inode_byte
  put_size v =
      rw
        (
          put_inside 52 (omega arith),
          put_inside 53 (omega arith),
          put_inside 54 (omega arith),
          put_inside 55 (omega arith),
        )
        (omega (arith, v))

  put_start_block :
      n.start_block < 2 ^ 16
      → put_inode m at n (at + 56) + 256 * put_inode m at n (at + 57) ≡ n.start_block
  unfolding inode_byte
  put_start_block v =
      rw (put_inside 56 (omega arith), put_inside 57 (omega arith)) (omega (arith, v))

  put_block_count :
      n.block_count < 2 ^ 16
      → put_inode m at n (at + 58) + 256 * put_inode m at n (at + 59) ≡ n.block_count
  unfolding inode_byte
  put_block_count v =
      rw (put_inside 58 (omega arith), put_inside 59 (omega arith)) (omega (arith, v))

  put_parent :
      n.parent < 2 ^ 16 → put_inode m at n (at + 60) + 256 * put_inode m at n (at + 61) ≡ n.parent
  unfolding inode_byte
  put_parent v = rw (put_inside 60 (omega arith), put_inside 61 (omega arith)) (omega (arith, v))

  -- An inode that is put into a sector is read back from there.
  pub inode_at-put_inode : IsInode n → inode_at (put_inode m at n) at ≡ n
  unfolding inode_at
  inode_at-put_inode v = λ i. record {
    type = type i;
    name = fun_ext name i;
    size = put_size v.size i;
    start_block = put_start_block v.start_block i;
    block_count = put_block_count v.block_count i;
    parent = put_parent v.parent i;
    reserved = fun_ext reserved i;
  }
    where
      type : put_inode m at n at ≡ n.type
      type = omega (arith, put_first, v.type)

      name : (j : ℕ) → (if ltb j 51 then put_inode m at n (at + 1 + j) else 0) ≡ n.name j
      name j = ground (arith, put_name j, v.name j, v.name_end j)

      reserved : (j : ℕ) → (if ltb j 2 then put_inode m at n (at + 62 + j) else 0) ≡ n.reserved j
      reserved j = ground (arith, put_reserved j, v.reserved j, v.reserved_end j)

  put_outside :
      (at' k : ℕ)
      → (at' + 64 ≤ at) ⊎ (at + 64 ≤ at')
      → k < 64
      → put_inode m at n (at' + k) ≡ m (at' + k)
  unfolding put_inode
  put_outside at' k apart l = ground (arith, apart)

-- The inode at `at` depends on 64 bytes only.
inode_at-cong :
    (m m' : ℕ → ℕ) (at : ℕ)
    → ((k : ℕ) → k < 64 → m (at + k) ≡ m' (at + k))
    → inode_at m at ≡ inode_at m' at
unfolding inode_at
inode_at-cong m m' at same = λ i. record {
  type = type i;
  name = fun_ext name i;
  size =
      same 52 (omega arith) i
      + 256 * same 53 (omega arith) i
      + 65536 * same 54 (omega arith) i
      + 16777216 * same 55 (omega arith) i;
  start_block = same 56 (omega arith) i + 256 * same 57 (omega arith) i;
  block_count = same 58 (omega arith) i + 256 * same 59 (omega arith) i;
  parent = same 60 (omega arith) i + 256 * same 61 (omega arith) i;
  reserved = fun_ext reserved i;
}
  where
    type : m at ≡ m' at
    type =
        let here : at + 0 ≡ at = omega arith in ap m (sym here) ∙ same 0 (omega arith) ∙ ap m' here

    at_offset : (k j : ℕ) → k + j < 64 → m (at + k + j) ≡ m' (at + k + j)
    at_offset k j l =
        let here : at + k + j ≡ at + (k + j) = omega arith in
        ap m here ∙ same (k + j) l ∙ ap m' (sym here)

    name :
        (j : ℕ)
        → (if ltb j 51 then m (at + 1 + j) else 0) ≡ (if ltb j 51 then m' (at + 1 + j) else 0)
    name j = ground (arith, at_offset 1 j)

    reserved :
        (j : ℕ)
        → (if ltb j 2 then m (at + 62 + j) else 0) ≡ (if ltb j 2 then m' (at + 62 + j) else 0)
    reserved j = ground (arith, at_offset 62 j)

-- The inodes in front of an inode and behind it stay as they are.
pub inode_at-other :
    (m : ℕ → ℕ) (at : ℕ) (n : Inode) (at' : ℕ)
    → (at' + 64 ≤ at) ⊎ (at + 64 ≤ at')
    → inode_at (put_inode m at n) at' ≡ inode_at m at'
inode_at-other m at n at' apart =
    inode_at-cong (put_inode m at n) m at' (λ k l. put_outside m at n at' k apart l)
