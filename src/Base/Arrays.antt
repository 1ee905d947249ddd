-- ===== src/Base/Arrays.antt =====
-- C arrays and memories, read at every index: a cell that no code writes keeps its value.
use Prim.Native.Nat.{ℕ, zero, suc, ◌+◌, ◌≤◌, ◌<◌}
use mathlib.Core.Path.{◌≡◌, refl, ap₂}
use mathlib.Core.Logic.{◌≢◌}
use mathlib.Core.List.{List, [], ◌∷◌}
use native.Mathlib.Omega.{arith}
use szczupak_os.Base.Tests.{◌==◌, if◌then◌else◌}

module _ {ℓ} {A : Type ℓ} where
  -- `a[i] = v`
  abbrev pub update : (ℕ → A) → ℕ → A → ℕ → A
  update a i v j = if j == i then v else a j

  -- the `n` cells from `i` on
  abbrev pub slice : (ℕ → A) → ℕ → ℕ → List A
  slice a i zero = []
  slice a i (suc n) = a i ∷ slice a (i + 1) n

  pub update_self : (a : ℕ → A) (i : ℕ) (v : A) → update a i v i ≡ v
  update_self a i v = ground arith

  pub update_ne : (a : ℕ → A) (i : ℕ) (v : A) (j : ℕ) → j ≢ i → update a i v j ≡ a j
  update_ne a i v j h = ground arith

  pub slice_eq :
      (n i : ℕ) (a b : ℕ → A)
      → ((j : ℕ) → i ≤ j → j < i + n → a j ≡ b j)
      → slice a i n ≡ slice b i n
  slice_eq zero i a b h = refl
  slice_eq (suc n) i a b h =
      ap₂ ◌∷◌ (h i (omega arith) (omega arith))
        (slice_eq n (i + 1) a b (λ j p q. h j (omega arith) (omega arith)))
