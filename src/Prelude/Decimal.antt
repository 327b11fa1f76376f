-- ===== src/Prelude/Decimal.antt =====
-- Numbers as `format!("{}", …)` prints them.
use Prim.Native.Nat.{ℕ, zero, suc, ◌+◌, ◌/◌, ◌%◌, compare, Ordering}
use mathlib.Core.List.{List, [], ◌∷◌}

-- The digits of `n` in front of `acc`, on fuel that exceeds `n`.
unfoldable pub digits_fuel : ℕ → ℕ → List ℕ → List ℕ
digits_fuel zero n acc = acc
digits_fuel (suc f) n acc =
    let rest = digits_fuel f (n / 10) ((n % 10 + 48) ∷ acc) in
    elim (compare n 10) [ Ordering.lt ↦ (n + 48) ∷ acc | _ ↦ rest ]

unfoldable pub decimal : ℕ → List ℕ
unfolding digits_fuel
decimal n = digits_fuel (n + 1) n []
