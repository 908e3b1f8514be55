-- ===== src/Engine/Weights.antt =====
-- internal/engine/patch.go, the block weights: `uint` numbers that are divided by their greatest common
-- divisor.
pub mod Ratio
use phantom_traffic.Prelude.{
  ℕ, zero, suc, ◌+◌, ◌/◌, ◌%◌, String, [], ◌∷◌, Option, none, some, if◌then◌else◌, ltb, ◌==◌,
}
use Prim.Native.String.{◌++◌ as join}
use phantom_traffic.Prelude.Dict.{Dict, get, put}
use phantom_traffic.Pterr.{GoErr, new_error, class_config}

-- The loop of gcd: `b` falls, so `b` rounds are enough.
unfoldable pub gcd_from : ℕ → ℕ → ℕ → ℕ
gcd_from zero a b = a
gcd_from (suc fuel) a b = let rest = gcd_from fuel b (a % b) in if b == 0 then a else rest

unfoldable pub gcd : ℕ → ℕ → ℕ
unfolding gcd_from
gcd a b = gcd_from (b + 1) a b

weights_err : String → GoErr
weights_err msg = new_error class_config "engine.patch.weights" "Run.ApplyPatch" msg

-- The loop over the weights of the patch: `out` is what it has written, or its error.
unfoldable pub take_weights : Dict ℕ → Dict ℕ → Dict ℕ → Dict ℕ × Option GoErr
unfolding weights_err
take_weights known [] out = (out, none)
take_weights known ((id, v) ∷ w) out = elim (get id known) [
  | none ↦ (out, some (weights_err (join "weight references unknown block: " id)))
  | some old ↦
      if v == 0
      then (out, some (weights_err (join "weight must be >= 1 for block: " id)))
      else take_weights known w (put id v out)
]

-- The weights that the patch leaves as they are.
unfoldable pub keep_weights : Dict ℕ → Dict ℕ → Dict ℕ
keep_weights [] out = out
keep_weights ((id, v) ∷ w) out =
    keep_weights w (elim (get id out) [ none ↦ put id v out | some new ↦ out ])

unfoldable pub gcd_all : ℕ → Dict ℕ → ℕ
unfolding gcd
gcd_all g [] = g
gcd_all g ((id, v) ∷ w) = gcd_all (gcd g v) w

unfoldable pub divide_all : ℕ → Dict ℕ → Dict ℕ
divide_all g [] = []
divide_all g ((id, v) ∷ w) = (id, v / g) ∷ divide_all g w

unfoldable pub reduce : Dict ℕ → Dict ℕ
unfolding gcd_all divide_all
reduce out = if ltb 1 (gcd_all 0 out) then divide_all (gcd_all 0 out) out else out

unfoldable pub normalize_weights : Dict ℕ → Dict ℕ → Dict ℕ × Option GoErr
unfolding take_weights keep_weights reduce
normalize_weights weights w =
    let (out, err) = take_weights weights w [] in
    elim err [ some e ↦ ([], some e) | none ↦ (reduce (keep_weights weights out), none) ]
