-- ===== src/Base/ByteStrings/Copy.antt =====
-- Go's `copy(dst[off:], src)` and the slice `data[off : off+n]`, with what a copy leaves alone.
use Prim.Native.Nat.{ℕ, zero, suc, ◌+◌, ◌≤◌}
use mathlib.Core.Path.{◌≡◌, refl, ap}
use mathlib.Core.Logic.{◌⊎◌}
use mathlib.Core.List.{List, [], ◌∷◌}
use native.Mathlib.Omega.{arith}
use go_db.Base.Lists.{length, take, drop}

unfoldable pub copy_at : List ℕ → ℕ → List ℕ → List ℕ
copy_at [] off src = []
copy_at (d ∷ ds) zero [] = d ∷ ds
copy_at (d ∷ ds) zero (s ∷ ss) = s ∷ copy_at ds zero ss
copy_at (d ∷ ds) (suc off) src = d ∷ copy_at ds off src

unfoldable pub slice : List ℕ → ℕ → ℕ → List ℕ
unfolding take drop
slice l off n = take n (drop off l)

pub length-copy_at : (l : List ℕ) (off : ℕ) (src : List ℕ) → length (copy_at l off src) ≡ length l
unfolding copy_at
length-copy_at [] off src = refl
length-copy_at (d ∷ ds) zero [] = refl
length-copy_at (d ∷ ds) zero (s ∷ ss) = ap suc (length-copy_at ds zero ss)
length-copy_at (d ∷ ds) (suc off) src = ap suc (length-copy_at ds off src)

-- What was copied is read back.
pub slice-copy_at :
    (l : List ℕ) (off : ℕ) (src : List ℕ)
    → off + length src ≤ length l
    → slice (copy_at l off src) off (length src) ≡ src
unfolding slice copy_at
slice-copy_at [] zero [] h = refl
slice-copy_at [] zero (s ∷ ss) h = absurd (omega arith)
slice-copy_at [] (suc off) [] h = refl
slice-copy_at [] (suc off) (s ∷ ss) h = absurd (omega arith)
slice-copy_at (d ∷ ds) zero [] h = refl
slice-copy_at (d ∷ ds) zero (s ∷ ss) h = ap (◌∷◌ s) (slice-copy_at ds zero ss (omega arith))
slice-copy_at (d ∷ ds) (suc off) src h = slice-copy_at ds off src (omega arith)

-- A slice that ends before the copy, or begins behind it, is as it was.
pub slice-copy_at_before :
    (l : List ℕ) (off : ℕ) (src : List ℕ) (a n : ℕ)
    → (a + n ≤ off) ⊎ (off + length src ≤ a)
    → slice (copy_at l off src) a n ≡ slice l a n
unfolding slice copy_at
slice-copy_at_before [] off src a n h = refl
slice-copy_at_before (d ∷ ds) zero [] a n h = refl
slice-copy_at_before (d ∷ ds) zero (s ∷ ss) zero zero h = refl
slice-copy_at_before (d ∷ ds) zero (s ∷ ss) zero (suc n) h = absurd (omega arith)
slice-copy_at_before (d ∷ ds) zero (s ∷ ss) (suc a) n h =
    slice-copy_at_before ds zero ss a n (omega arith)
slice-copy_at_before (d ∷ ds) (suc off) src zero zero h = refl
slice-copy_at_before (d ∷ ds) (suc off) src zero (suc n) h =
    ap (◌∷◌ d) (slice-copy_at_before ds off src zero n (omega arith))
slice-copy_at_before (d ∷ ds) (suc off) src (suc a) n h =
    slice-copy_at_before ds off src a n (omega arith)
