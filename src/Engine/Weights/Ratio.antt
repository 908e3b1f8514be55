-- ===== src/Engine/Weights/Ratio.antt =====
-- The greatest common divisor of the weights, and what dividing by it keeps.
use Prim.Native.Nat.{◌∣◌}
use native.Mathlib.Nat.{
  mod-lt, dvd_refl, dvd-zero, dvd_trans, dvd-mod_iff, div-mul_cancel, mul-dvd-mul_right,
  dvd_of_mul-dvd-mul_right, eq-one_of_dvd-one,
}
use phantom_traffic.Prelude.{
  ℕ, zero, suc, ◌+◌, ◌*◌, ◌%◌, ◌<◌, ◌≡◌, refl, sym, subst, inl, inr, [], ◌∷◌, arith, Bool-cases,
  if◌then◌else◌, ltb, ◌==◌,
}
use phantom_traffic.Prelude.Dict.{Dict}
use phantom_traffic.Engine.Weights.{gcd_from, gcd, gcd_all, divide_all, reduce}

gcd_from-dvd : (fuel a b : ℕ) → b < fuel → (gcd_from fuel a b ∣ a) × (gcd_from fuel a b ∣ b)
unfolding gcd_from
gcd_from-dvd zero a b h = absurd (omega arith)
gcd_from-dvd (suc fuel) a b h = elim (Bool-cases (b == 0)) [
  | inl none_left ↦
      let nil : b ≡ 0 = ground arith in
      rw none_left (dvd_refl a, subst (λ k. a ∣ k) (sym nil) (dvd-zero a))
  | inr some_left ↦
      let positive : 0 < b = ground arith in
      let smaller = mod-lt a positive in
      let (first, second) = gcd_from-dvd fuel b (a % b) (omega arith) in
      rw some_left ((dvd-mod_iff _ first).0 second, first)
]

gcd_from-greatest : (fuel a b d : ℕ) → b < fuel → d ∣ a → d ∣ b → d ∣ gcd_from fuel a b
unfolding gcd_from
gcd_from-greatest zero a b d h p q = absurd (omega arith)
gcd_from-greatest (suc fuel) a b d h p q = elim (Bool-cases (b == 0)) [
  | inl none_left ↦ rw none_left p
  | inr some_left ↦
      let positive : 0 < b = ground arith in
      let smaller = mod-lt a positive in
      rw some_left (gcd_from-greatest fuel b (a % b) d (omega arith) q ((dvd-mod_iff d q).1 p))
]

-- `d` divides every weight.
abbrev pub DividesAll : ℕ → Dict ℕ → Type 0
DividesAll d [] = Unit {0}
DividesAll d ((id, v) ∷ w) = (d ∣ v) × DividesAll d w

divides_more : (d e : ℕ) (w : Dict ℕ) → d ∣ e → DividesAll e w → DividesAll d w
divides_more d e [] p h = tt
divides_more d e ((id, v) ∷ w) p h = (dvd_trans d p h.0, divides_more d e w p h.1)

gcd_all-dvd : (g : ℕ) (w : Dict ℕ) → (gcd_all g w ∣ g) × DividesAll (gcd_all g w) w
unfolding gcd_all gcd
gcd_all-dvd g [] = (dvd_refl g, tt)
gcd_all-dvd g ((id, v) ∷ w) =
    let (left, right) = gcd_from-dvd (v + 1) g v (omega arith) in
    let (below, rest) = gcd_all-dvd (gcd_from (v + 1) g v) w in
    (dvd_trans _ below left, (dvd_trans _ below right, rest))

gcd_all-greatest : (g : ℕ) (w : Dict ℕ) (d : ℕ) → d ∣ g → DividesAll d w → d ∣ gcd_all g w
unfolding gcd_all gcd
gcd_all-greatest g [] d p h = p
gcd_all-greatest g ((id, v) ∷ w) d p h =
    gcd_all-greatest (gcd_from (v + 1) g v) w d
      (gcd_from-greatest (v + 1) g v d (omega arith) p h.0) h.1

-- The same blocks in the same order, each weight the new one times `g`.
abbrev pub Scaled : ℕ → Dict ℕ → Dict ℕ → Type 0
Scaled g [] [] = Unit {0}
Scaled g [] (x ∷ w') = ⊥
Scaled g (x ∷ w) [] = ⊥
Scaled g ((id, v) ∷ w) ((id', v') ∷ w') = (id' ≡ id) × (v' * g ≡ v) × Scaled g w w'

divide_all-Scaled : (g : ℕ) (w : Dict ℕ) → DividesAll g w → Scaled g w (divide_all g w)
unfolding divide_all
divide_all-Scaled g [] h = tt
divide_all-Scaled g ((id, v) ∷ w) h = (refl, div-mul_cancel g h.0, divide_all-Scaled g w h.1)

Scaled-one : (w : Dict ℕ) → Scaled 1 w w
Scaled-one [] = tt
Scaled-one ((id, v) ∷ w) = (refl, omega arith, Scaled-one w)

-- What divides the new weights divides the old ones, times the scale.
Scaled-divides : (g d : ℕ) (w w' : Dict ℕ) → Scaled g w w' → DividesAll d w' → DividesAll (d * g) w
Scaled-divides g d [] [] s h = tt
Scaled-divides g d [] (x ∷ w') s h = absurd s
Scaled-divides g d (x ∷ w) [] s h = absurd s
Scaled-divides g d ((id, v) ∷ w) ((id', v') ∷ w') s h =
    (subst (λ k. d * g ∣ k) s.1 (mul-dvd-mul_right d h.0 g), Scaled-divides g d w w' s.2 h.1)

-- The scale by which `reduce` divides.
abbrev scale : ℕ → ℕ
scale g = if ltb 1 g then g else 1

reduce-Scaled : (w : Dict ℕ) → Scaled (scale (gcd_all 0 w)) w (reduce w)
unfolding reduce
reduce-Scaled w = elim (Bool-cases (ltb 1 (gcd_all 0 w))) [
  | inl divides ↦ rw divides (divide_all-Scaled (gcd_all 0 w) w (gcd_all-dvd 0 w).1)
  | inr alone ↦ rw alone (Scaled-one w)
]

scale-lem : (g : ℕ) → 0 < g → scale g ≡ g
scale-lem g h = ground arith

common_one :
    (g d : ℕ) (w w' : Dict ℕ) → 0 < g → g ≡ gcd_all 0 w → Scaled g w w' → DividesAll d w' → d ≡ 1
common_one g d w w' h e s k =
    let all_of : DividesAll (d * g) w = Scaled-divides g d w w' s k in
    let divides : (d * g) ∣ g =
      subst (λ k. (d * g) ∣ k) (sym e) (gcd_all-greatest 0 w (d * g) (dvd-zero (d * g)) all_of) in
    eq-one_of_dvd-one (dvd_of_mul-dvd-mul_right d h (subst (λ k. (d * g) ∣ k) (unit g) divides))
  where
    unit : (g : ℕ) → g ≡ 1 * g
    unit g = omega arith

-- Reducing the weights keeps every block and all ratios: each weight is the reduced one times a
-- common positive scale, and if some weight is not 0 the reduced weights have no common divisor but 1.
pub reduce_ratio :
    (w : Dict ℕ)
    → (g : ℕ) × (0 < g)
      × Scaled g w (reduce w)
      × (0 < gcd_all 0 w → (d : ℕ) → DividesAll d (reduce w) → d ≡ 1)
reduce_ratio w =
    let g = gcd_all 0 w in
    let s = reduce-Scaled w in
    (
      scale g,
      ground arith,
      s,
      λ h d k. let e = scale-lem g h in common_one (scale g) d w (reduce w) (ground arith) e s k,
    )
