-- ===== src/Strings/Tests.antt =====
-- kernel/string/string.c on short strings.
use tet_os.Prelude.{
  ℕ, ◌≡◌, refl, arith, List, [], ◌∷◌, get_or, ◌-◌, ◌+◌, ◌&&◌, ◌==◌, if◌then◌else◌, leb,
}
use tet_os.Prelude.Int.{pos, negsuc}
use tet_os.Strings.{strcmp, strcmp_loop}
use tet_os.Strings.Memory.{strlen, strlen_loop, strcpy, strcat}
use tet_os.Strings.Memory.Length.{IsString, strcat_lem}
use tet_os.Strings.Compare.{AgreeFrom, strcmp_lem}

abbrev text : List ℕ → ℕ → ℕ
text bytes k = get_or bytes k 0

strcmp_runs : strcmp 8 (text (97 ∷ 98 ∷ [])) (text (97 ∷ 99 ∷ [])) ≡ negsuc 0
unfolding strcmp strcmp_loop
strcmp_runs = refl

strcmp_lem_example :
    (strcmp 2 (text (97 ∷ 98 ∷ [])) (text (97 ∷ 98 ∷ 0 ∷ 7 ∷ [])) ≡ pos 0
      → AgreeFrom 0 (text (97 ∷ 98 ∷ [])) (text (97 ∷ 98 ∷ 0 ∷ 7 ∷ [])))
    × (AgreeFrom 0 (text (97 ∷ 98 ∷ [])) (text (97 ∷ 98 ∷ 0 ∷ 7 ∷ []))
        → strcmp 2 (text (97 ∷ 98 ∷ [])) (text (97 ∷ 98 ∷ 0 ∷ 7 ∷ [])) ≡ pos 0)
strcmp_lem_example =
    strcmp_lem 2 2 (text (97 ∷ 98 ∷ [])) (text (97 ∷ 98 ∷ 0 ∷ 7 ∷ [])) refl (omega arith)

-- "hi" at 10, "yo" at 20.
abbrev store : ℕ → ℕ
store k =
    if k == 10
    then 104
    else if k == 11
    then 105
    else if k == 20
    then 121
    else if k == 21
    then 111
    else 0

strcat_runs : strlen 8 (strcat 4 10 20 store) 10 ≡ 4
unfolding strlen strlen_loop strcat strcpy
strcat_runs = refl

hi : IsString store 10 2
hi = record { ends = refl; before = λ k l. ground arith }

yo : IsString store 20 2
yo = record { ends = refl; before = λ k l. ground arith }

strcat_lem_example :
    strcat 4 10 20 store 13
    ≡ (if leb (10 + 2) 13 && leb 13 (10 + 2 + 2) then store (20 + (13 - (10 + 2))) else store 13)
strcat_lem_example = strcat_lem 4 10 20 2 2 store 13 hi yo (omega arith) (omega arith) (omega arith)
