-- ===== src/Common/Loops.antt =====
-- Counted loops: `for (i = from; i < from + rounds; i++) body`, and their invariant rule.
use Prim.Native.Nat.{ℕ, zero, suc, ◌+◌, ◌<◌}
use native.Mathlib.Omega.{arith}

unfoldable pub for_range {ℓ} : {A : Type ℓ} → (A → ℕ → A) → ℕ → ℕ → A → A
for_range body i zero a = a
for_range body i (suc n) a = for_range body (i + 1) n (body a i)

-- What every round keeps holds after the loop.
pub for_range-inv {ℓ κ} :
    {A : Type ℓ} (P : A → Type κ) (body : A → ℕ → A) (i n : ℕ) (a : A)
    → ((b : A) (j : ℕ) → j < i + n → P b → P (body b j))
    → P a
    → P (for_range body i n a)
unfolding for_range
for_range-inv P body i zero a keep h = h
for_range-inv P body i (suc n) a keep h =
    for_range-inv P body (i + 1) n (body a i) (λ b j p. keep b j (omega arith))
      (keep a i (omega arith) h)
