-- ===== src/Prelude/Float.antt =====
-- Go's float64 as an interface: the type is a parameter, and a theorem that depends on how the
-- arithmetic rounds or compares names what it uses as a hypothesis. A comparison with NaN is false.
use mathlib.Core.Bool.{Bool, ◌||◌}
use phantom_traffic.Prelude.Int.{ℤ, pos, negsuc, sub_ℕ}
use Prim.Native.Nat.{ℕ, suc, ◌/◌, ◌%◌}

pub record Float64 (F : Type 0) : Type 0 where
  -- a < b and a == b
  pub flt : F → F → Bool
  pub feq : F → F → Bool
  pub fadd : F → F → F
  pub fsub : F → F → F
  pub fmul : F → F → F
  pub fdiv : F → F → F
  -- math.Ceil
  pub ceil : F → F
  -- math.Round
  pub round : F → F
  -- float64(n) of an int64 or a uint64, and the conversions back
  pub of_int : ℤ → F
  pub to_int : F → ℤ
  pub to_uint : F → ℕ

module _ {F : Type 0} (ops : Float64 F) where
  open ops use {flt, feq, fadd, fdiv, of_int, to_int}

  -- a <= b: false if either is NaN.
  abbrev pub fle : F → F → Bool
  fle a b = flt a b || feq a b

  abbrev pub fzero : F
  fzero = of_int (pos 0)

  abbrev pub fone : F
  fone = of_int (pos 1)

  -- Duration.Seconds (package time): the whole seconds and the rest are converted apart.
  abbrev pub whole : ℤ → ℤ
  whole (pos n) = pos (n / 1000000000)
  whole (negsuc n) = sub_ℕ 0 (suc n / 1000000000)

  abbrev pub rest : ℤ → ℤ
  rest (pos n) = pos (n % 1000000000)
  rest (negsuc n) = sub_ℕ 0 (suc n % 1000000000)

  unfoldable pub seconds : ℤ → F
  seconds d = fadd (of_int (whole d)) (fdiv (of_int (rest d)) (of_int (pos 1000000000)))
