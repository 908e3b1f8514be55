-- ===== src/Prelude/Dict.antt =====
-- A Go map with string keys, as an association list; `put` writes over an entry in place. The
-- program's loops over maps do not depend on the order, or say so where they are modelled.
use Prim.Native.String.{String}
use mathlib.Core.Path.{◌≡◌, refl, subst}
use mathlib.Core.Logic.{inl, inr}
use mathlib.Core.Option.{Option, none, some}
use mathlib.Core.List.{List, [], ◌∷◌}
use native.Mathlib.Omega.{arith}
use text.Mathlib.Text.{◌==◌ as str_eq}
use text.Mathlib.TextEquality.{eq_iff}
use phantom_traffic.Prelude.Tests.{if◌then◌else◌, Bool-cases}

abbrev pub Dict {ℓ} : Type ℓ → Type ℓ
Dict V = List (String × V)

module _ {ℓ} {V : Type ℓ} where
  -- v, ok := m[k]
  unfoldable pub get : String → Dict V → Option V
  get k [] = none
  get k ((j, v) ∷ m) = if str_eq j k then some v else get k m

  -- m[k] = v
  unfoldable pub put : String → V → Dict V → Dict V
  put k v [] = (k, v) ∷ []
  put k v ((j, w) ∷ m) = if str_eq j k then (j, v) ∷ m else (j, w) ∷ put k v m

  pub get-put :
      (k j : String) (v : V) (m : Dict V)
      → get j (put k v m) ≡ (if str_eq k j then some v else get j m)
  unfolding get put
  get-put k j v [] = refl
  get-put k j v ((i, w) ∷ m) = ground (arith, eq_iff k j, eq_iff i k, eq_iff i j, get-put k j v m)

-- A predicate on the values.
abbrev pub AllValues {ℓ κ} : {V : Type ℓ} → (V → Type κ) → Dict V → Type κ
AllValues P [] = Unit
AllValues P ((k, v) ∷ m) = P v × AllValues P m

module _ {ℓ κ} {V : Type ℓ} (P : V → Type κ) where
  pub get-AllValues : (k : String) (m : Dict V) (v : V) → AllValues P m → get k m ≡ some v → P v
  unfolding get
  get-AllValues k [] v h e = cc
  get-AllValues k ((j, w) ∷ m) v h e = elim (Bool-cases (str_eq j k)) [
    | inl hit ↦ let same : w ≡ v = ground (arith) in subst P same h.0
    | inr miss ↦ get-AllValues k m v h.1 (rw miss at e)
  ]

  pub put-AllValues :
      (k : String) (v : V) (m : Dict V) → P v → AllValues P m → AllValues P (put k v m)
  unfolding put
  put-AllValues k v [] p h = (p, tt)
  put-AllValues k v ((j, w) ∷ m) p h = elim (Bool-cases (str_eq j k)) [
    | inl hit ↦ rw hit (p, h.1)
    | inr miss ↦ rw miss (h.0, put-AllValues k v m p h.1)
  ]
