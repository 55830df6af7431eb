-- ===== src/Ring.antt =====
-- What an array read as a ring holds: the common view of the pipes of kernel/ipc/ipc.c and of the
-- event buffers of kernel/keyboard/keyboard.c and kernel/mouse/mouse.c.
use native.Mathlib.Nat.{add-zero, mod-add-mod, mod-eq_of_lt, mod-eq-sub-mod, mod-lt}
use native.Mathlib.Decide.{dec_lt}
use tet_os.Prelude.{
  ℕ, zero, suc, ◌+◌, ◌-◌, ◌%◌, ◌<◌, ◌≡◌, ◌≢◌, refl, sym, ap, ap₂, ◌∙◌, List, [], ◌∷◌, ◌++◌, arith,
  update, update_ne, update_self, length,
}

module _ {ℓ} {A : Type ℓ} (slots : ℕ) (cells : ℕ → A) where
  -- The `n` cells from `h` on, going round at `slots`.
  abbrev pub window : ℕ → ℕ → List A
  window h zero = []
  window h (suc n) = cells h ∷ window ((h + 1) % slots) n

  pub length-window : (h n : ℕ) → length (window h n) ≡ n
  length-window h zero = refl
  length-window h (suc n) = ap suc (length-window ((h + 1) % slots) n)

-- One more step round the ring, from either end.
pub shift : (slots h n : ℕ) → ((h + 1) % slots + n) % slots ≡ (h + suc n) % slots
shift slots h n = mod-add-mod (h + 1) slots n ∙ ap (λ (k : ℕ). k % slots) (omega arith)

-- Fewer than `slots` steps do not come back to the start.
pub no_return : (slots h k : ℕ) → h < slots → suc k < slots → (h + suc k) % slots ≢ h
no_return slots h k hh hk = elim (dec_lt (h + suc k) slots) [
  | yes below ↦ omega (arith, mod-eq_of_lt below)
  | no above ↦ omega (
    arith,
    mod-eq-sub-mod {n = h + suc k} {m = slots} (omega arith),
    mod-eq_of_lt {n = h + suc k - slots} {m = slots} (omega arith),
  )
]

module _ {ℓ} {A : Type ℓ} (slots : ℕ) where
  pub window-snoc :
      (cells : ℕ → A) (h n : ℕ)
      → h < slots
      → window slots cells h (suc n) ≡ window slots cells h n ++ cells ((h + n) % slots) ∷ []
  window-snoc cells h zero hh = ap (λ k. cells k ∷ []) (rw add-zero (sym (mod-eq_of_lt hh)))
  window-snoc cells h (suc n) hh = ap (◌∷◌ (cells h)) (
      window-snoc cells ((h + 1) % slots) n (mod-lt _ (omega arith))
      ∙ ap (λ k. window slots cells ((h + 1) % slots) n ++ cells k ∷ []) (shift slots h n))

  -- A write just past a window leaves the window alone.
  pub window-update :
      (cells : ℕ → A) (x : A) (h n w : ℕ)
      → h < slots
      → n < slots
      → w ≡ (h + n) % slots
      → window slots (update cells w x) h n ≡ window slots cells h n
  window-update cells x h zero w hh hn e = refl
  window-update cells x h (suc n) w hh hn e =
      ap₂ ◌∷◌ (update_ne cells w h x (omega (arith, no_return slots h n hh hn))) (
        window-update cells x ((h + 1) % slots) n w (mod-lt _ (omega arith)) (omega arith)
          (e ∙ (omega (arith, shift slots h n))))

  -- So it extends the window by what it writes.
  pub window-push :
      (cells : ℕ → A) (x : A) (h n w : ℕ)
      → h < slots
      → n < slots
      → w ≡ (h + n) % slots
      → window slots (update cells w x) h (suc n) ≡ window slots cells h n ++ x ∷ []
  window-push cells x h n w hh hn e =
      window-snoc (update cells w x) h n hh
      ∙ ap₂ (λ l y. l ++ y ∷ []) (window-update cells x h n w hh hn e)
          (rw e (update_self cells ((h + n) % slots) x))
