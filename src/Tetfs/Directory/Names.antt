-- ===== src/Tetfs/Directory/Names.antt =====
-- The name that `tetfs_create` stores.
use native.Mathlib.Decide.{ℕ_discrete}
use tet_os.Prelude.{
  ℕ, zero, suc, ◌+◌, ◌≤◌, ◌<◌, ◌^◌, ◌≡◌, refl, sym, ap, ◌∙◌, not, ◌==◌, update, arith, if_cases,
  Bool-cases, inl, inr, ltb, update_self,
}
use tet_os.Strings.Compare.{AgreeFrom, not_end}
use tet_os.Tetfs.Inode.Bytes.{IsInode}
use tet_os.Tetfs.Directory.{copy_name, new_inode}

ended :
    (j : ℕ) (name dst : ℕ → ℕ)
    → name j ≡ 0
    → ((i : ℕ) → i < j → dst i ≡ name i)
    → AgreeFrom 0 (update dst j 0) name
ended j name dst stop copied k n before = elim (ℕ_discrete j k) [
  | yes at ↦ let here : name k ≡ 0 = ap name (sym at) ∙ stop in ground (arith, at, here)
  | no other ↦ elim (Bool-cases (ltb k j)) [
    | inl inside ↦ ground (arith, copied k, inside)
    | inr past ↦ absurd (before j (omega arith) (ground (arith, past)) (update_self dst j 0))
  ]
]

copy_next :
    (j : ℕ) (name dst : ℕ → ℕ)
    → ((i : ℕ) → i < j → dst i ≡ name i)
    → (i : ℕ) → i < j + 1
    → update dst j (name j) i ≡ name i
copy_next j name dst copied i l = elim (ℕ_discrete j i) [
  | yes at ↦ let here : name j ≡ name i = ap name at in ground (arith, at, here)
  | no other ↦ ground (arith, copied i, other)
]

-- The copy of a string whose terminator is within reach agrees with it.
pub copy_name-agrees :
    (left j end : ℕ) (name dst : ℕ → ℕ)
    → name end ≡ 0
    → j ≤ end
    → end ≤ j + left
    → ((i : ℕ) → i < j → dst i ≡ name i)
    → AgreeFrom 0 (copy_name left j name dst) name
unfolding copy_name
copy_name-agrees zero j end name dst stop l m copied = ended j name dst (ap name here ∙ stop) copied
  where
    here : j ≡ end
    here = omega arith
copy_name-agrees (suc left) j end name dst stop l m copied =
    if_cases (λ r. AgreeFrom 0 r name) (not (name j == 0))
      (λ more.
        copy_name-agrees left (j + 1) end name (update dst j (name j)) stop
          (not_end name j end (ground (arith, more)) stop l) (omega arith)
          (copy_next j name dst copied))
      (λ last. ended j name dst (ground (arith, last)) copied)

pub copy_name-lt :
    (left j : ℕ) (name dst : ℕ → ℕ)
    → ((i : ℕ) → name i < 2 ^ 8)
    → ((i : ℕ) → dst i < 2 ^ 8)
    → (k : ℕ) → copy_name left j name dst k < 2 ^ 8
unfolding copy_name
copy_name-lt zero j name dst bytes small k = ground (arith, small k)
copy_name-lt (suc left) j name dst bytes small k = ground (
  arith,
  bytes j,
  small k,
  copy_name-lt left (j + 1) name (update dst j (name j)) bytes
      (λ i. ground (arith, bytes j, small i)) k,
)

pub copy_name-end :
    (left j : ℕ) (name dst : ℕ → ℕ) (k : ℕ)
    → dst k ≡ 0
    → j + left ≤ k
    → copy_name left j name dst k ≡ 0
unfolding copy_name
copy_name-end zero j name dst k clear l = ground (arith, clear)
copy_name-end (suc left) j name dst k clear l = ground (
  arith,
  clear,
  copy_name-end left (j + 1) name (update dst j (name j)) k (ground (arith, clear)) (omega arith),
)

pub new_inode-IsInode :
    (name : ℕ → ℕ) (parent type : ℕ)
    → ((i : ℕ) → name i < 2 ^ 8)
    → parent < 2 ^ 16
    → type < 2 ^ 8
    → IsInode (new_inode name parent type)
unfolding new_inode
new_inode-IsInode name parent type bytes p t = record {
  type = t;
  name = copy_name-lt 50 0 name (λ j. 0) bytes (λ i. omega arith);
  name_end = λ j l. copy_name-end 50 0 name (λ i. 0) j refl (omega arith);
  size = omega arith;
  start_block = omega arith;
  block_count = omega arith;
  parent = p;
  reserved = λ j. omega arith;
  reserved_end = λ j l. refl;
}
