-- ===== src/Tests/Floats.antt =====
-- A number system that stands in for float64 where a test needs one: the integers, exact and
-- unbounded, with a NaN.
use phantom_traffic.Prelude.{◌*◌, ◌≡◌, refl, Bool, false, Option, none, some, arith}
use phantom_traffic.Prelude.Int.{ℤ, pos, sub_ℕ, ◌+ℤ◌, ◌-ℤ◌, pos_part, neg_part, ltb_ℤ, eqb_ℤ, quot}
use phantom_traffic.Prelude.Float.{Float64}
use phantom_traffic.Safety.Limiter.Tokens.{Exact}
use phantom_traffic.Safety.Limiter.Unordered.{NanLaws}

abbrev pub Toy : Type 0
Toy = Option ℤ

abbrev pub toy_lt : Toy → Toy → Bool
toy_lt none y = false
toy_lt (some a) none = false
toy_lt (some a) (some b) = ltb_ℤ a b

abbrev pub toy_eq : Toy → Toy → Bool
toy_eq none y = false
toy_eq (some a) none = false
toy_eq (some a) (some b) = eqb_ℤ a b

abbrev pub lift : (ℤ → ℤ → ℤ) → Toy → Toy → Toy
lift f none y = none
lift f (some a) none = none
lift f (some a) (some b) = some (f a b)

unfoldable pub times : ℤ → ℤ → ℤ
times a b = sub_ℕ (pos_part a * pos_part b) (neg_part a * pos_part b)

-- By a positive divisor.
unfoldable pub over : ℤ → ℤ → ℤ
unfolding quot
over a b = quot a (pos_part b)

abbrev pub value : Toy → ℤ
value none = pos 0
value (some a) = a

abbrev pub toy : Float64 Toy
toy = record {
  flt = toy_lt;
  feq = toy_eq;
  fadd = lift (λ a b. a +ℤ b);
  fsub = lift (λ a b. a -ℤ b);
  fmul = lift times;
  fdiv = lift over;
  ceil = λ x. x;
  round = λ x. x;
  of_int = λ n. some n;
  to_int = value;
  to_uint = λ x. pos_part (value x);
}

pub toy_irrefl : (x : Toy) → toy_lt x x ≡ false
toy_irrefl none = refl
toy_irrefl (some a) = ground arith

pub toy_Exact : Exact toy
unfolding ◌+ℤ◌ ◌-ℤ◌
toy_Exact none h k = cc
toy_Exact (some a) h k = ground arith

abbrev pub IsNone : Toy → Type 0
IsNone x = x ≡ none

lt-none : (x : Toy) → toy_lt x none ≡ false
lt-none none = refl
lt-none (some a) = refl

pub toy_NanLaws : NanLaws toy IsNone
toy_NanLaws = record {
  nan-lt = λ x y h. rw h refl;
  lt-nan = λ x y h. rw h (lt-none x);
  nan-eq = λ x y h. rw h refl;
  nan-add = λ x y h. rw h refl;
  nan-sub = λ x y h. rw h refl;
}
