-- ===== src/Prelude/Text.antt =====
-- Texts as lists of bytes, and the functions of the packages strings and strconv that the program
-- uses, on ASCII: a blank is a space or one of the five controls from tab to carriage return.
use Prim.Native.Nat.{ℕ, suc, ◌+◌, ◌-◌, ◌*◌}
use Prim.Native.Char.{code}
use Prim.Native.String.{String}
use mathlib.Core.Bool.{Bool, true, false, ◌&&◌, ◌||◌}
use mathlib.Core.Option.{Option, none, some}
use mathlib.Core.List.{List, [], ◌∷◌, map}
use phantom_traffic.Prelude.Tests.{leb, ◌==◌, if◌then◌else◌}
use phantom_traffic.Prelude.Int.{ℤ, pos, sub_ℕ, leb_ℤ, max_int64, min_int64}

abbrev pub Bytes : Type 0
Bytes = List ℕ

-- The bytes of an ASCII text. `String` has its own `[]` and `∷`.
abbrev pub codes : String → Bytes
codes String.[] = []
codes (String.◌∷◌ c s) = code c ∷ codes s

unfoldable pub is_space : ℕ → Bool
is_space c = (c == 32) || (leb 9 c && leb c 13)

unfoldable pub trim_left : String → String
unfolding is_space
trim_left String.[] = ""
trim_left (String.◌∷◌ c s) =
    let rest = trim_left s in if is_space (code c) then rest else String.◌∷◌ c s

unfoldable pub trim_right : String → String
unfolding is_space
trim_right String.[] = ""
trim_right (String.◌∷◌ c s) = elim (trim_right s) [
  | String.[] ↦ if is_space (code c) then "" else String.◌∷◌ c ""
  | String.◌∷◌ d rest ↦ String.◌∷◌ c (String.◌∷◌ d rest)
]

-- strings.TrimSpace
unfoldable pub trim_space : String → String
unfolding trim_left trim_right
trim_space s = trim_right (trim_left s)

-- strings.TrimSpace leaves nothing.
unfoldable pub is_blank : Bytes → Bool
unfolding is_space
is_blank [] = true
is_blank (c ∷ cs) = is_space c && is_blank cs

-- strings.ToLower, of one byte.
unfoldable pub to_lower : ℕ → ℕ
to_lower c = if leb 65 c && leb c 90 then c + 32 else c

unfoldable pub has_prefix : Bytes → Bytes → Bool
has_prefix [] s = true
has_prefix (c ∷ cs) [] = false
has_prefix (c ∷ cs) (d ∷ ds) = (c == d) && has_prefix cs ds

-- strings.Contains
unfoldable pub contains : Bytes → Bytes → Bool
unfolding has_prefix
contains [] marker = has_prefix marker []
contains (c ∷ cs) marker = has_prefix marker (c ∷ cs) || contains cs marker

-- strings.Count of one byte.
unfoldable pub count_byte : ℕ → Bytes → ℕ
count_byte b [] = 0
count_byte b (c ∷ cs) = if c == b then suc (count_byte b cs) else count_byte b cs

unfoldable pub push_part : ℕ → List Bytes → List Bytes
push_part c [] = (c ∷ []) ∷ []
push_part c (p ∷ ps) = (c ∷ p) ∷ ps

-- strings.Split by one byte: at least one part.
unfoldable pub split : ℕ → Bytes → List Bytes
unfolding push_part
split b [] = [] ∷ []
split b (c ∷ cs) = let rest = split b cs in if c == b then [] ∷ rest else push_part c rest

unfoldable pub is_digit : ℕ → Bool
is_digit c = leb 48 c && leb c 57

unfoldable pub decimal : ℕ → Bytes → Option ℕ
unfolding is_digit
decimal acc [] = some acc
decimal acc (c ∷ cs) =
    let rest = decimal (acc * 10 + (c - 48)) cs in if is_digit c then rest else none

unfoldable pub decimal? : Bytes → Option ℕ
unfolding decimal
decimal? [] = none
decimal? (c ∷ cs) = decimal 0 (c ∷ cs)

unfoldable pub in_range : Option ℤ → Option ℤ
in_range none = none
in_range (some z) = if leb_ℤ min_int64 z && leb_ℤ z max_int64 then some z else none

unfoldable pub as_pos : Option ℕ → Option ℤ
as_pos none = none
as_pos (some n) = some (pos n)

unfoldable pub as_neg : Option ℕ → Option ℤ
as_neg none = none
as_neg (some n) = some (sub_ℕ 0 n)

-- strconv.Atoi: an optional sign and at least one digit, within int64.
unfoldable pub atoi : Bytes → Option ℤ
unfolding decimal? in_range as_pos as_neg
atoi [] = none
atoi (c ∷ cs) =
    if c == 45
    then in_range (as_neg (decimal? cs))
    else if c == 43
    then in_range (as_pos (decimal? cs))
    else in_range (as_pos (decimal? (c ∷ cs)))

-- What stands before the first such byte, and what after.
unfoldable pub cut : ℕ → Bytes → Option (Bytes × Bytes)
cut b [] = none
cut b (c ∷ cs) =
    let rest = cut b cs in
    if c == b
    then some ([], cs)
    else elim rest [ none ↦ none | some (before, after) ↦ some (c ∷ before, after) ]

-- strings.ToLower
unfoldable pub lower : Bytes → Bytes
unfolding to_lower
lower s = map to_lower s

-- strings.TrimPrefix and strings.TrimSuffix of one byte.
unfoldable pub trim_prefix : ℕ → Bytes → Bytes
trim_prefix b [] = []
trim_prefix b (c ∷ cs) = if c == b then cs else c ∷ cs

unfoldable pub trim_suffix : ℕ → Bytes → Bytes
trim_suffix b [] = []
trim_suffix b (c ∷ []) = if c == b then [] else c ∷ []
trim_suffix b (c ∷ d ∷ ds) = c ∷ trim_suffix b (d ∷ ds)
