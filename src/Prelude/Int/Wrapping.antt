-- ===== src/Prelude/Int/Wrapping.antt =====
-- Laws of wrapping arithmetic: a reduction to `int64_t` inside another one can be left out.
use speedex.Prelude.Int.{ℤ, ◌+ℤ◌, ◌-ℤ◌, wrap64, neg64, IsInt64}
use mathlib.Core.Path.{◌≡◌}
use native.Mathlib.Omega.{arith}

pub wrap64-sub : (a b : ℤ) → wrap64 (wrap64 a -ℤ b) ≡ wrap64 (a -ℤ b)
unfolding wrap64 ◌-ℤ◌
wrap64-sub a b = ground arith

pub wrap64-sub_right : (a b : ℤ) → wrap64 (a -ℤ wrap64 b) ≡ wrap64 (a -ℤ b)
unfolding wrap64 ◌-ℤ◌
wrap64-sub_right a b = ground arith

pub wrap64-add_right : (a b : ℤ) → wrap64 (a +ℤ wrap64 b) ≡ wrap64 (a +ℤ b)
unfolding wrap64 ◌+ℤ◌
wrap64-add_right a b = ground arith

pub neg64-neg64 : (a : ℤ) → IsInt64 a → neg64 (neg64 a) ≡ a
unfolding neg64 wrap64 ◌-ℤ◌
neg64-neg64 a h = ground arith
