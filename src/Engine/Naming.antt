-- ===== src/Engine/Naming.antt =====
-- internal/engine/patch.go, the names of targets and the checks of an address that a patch adds.
use phantom_traffic.Prelude.{
  ℕ, zero, suc, ◌+◌, ◌/◌, ◌%◌, ◌-◌, String, ◌&&◌, List, [], ◌∷◌, Option, none, some, if◌then◌else◌,
  ltb, length, get_elem?, str_eq,
}
use Prim.Native.String.{◌++◌ as join}
use Prim.Native.String.{len}
use text.Mathlib.Text.{starts_with}
use phantom_traffic.Prelude.Int.{ℤ, pos, negsuc}
use phantom_traffic.Prelude.Dict.{Dict, get, put}
use phantom_traffic.Pterr.{GoErr, new_error, class_config}
use phantom_traffic.Protocols.{Target}

-- Of a frozen block: what a patch reads.
pub record Block : Type 0 where
  pub id : String
  pub protocol : String
  pub targets : List Target

pub record TargetSpec : Type 0 where
  pub block_id : String
  pub addr : String

-- A parsed URL: u.Scheme, u.Host and u.Hostname().
pub record Url : Type 0 where
  pub scheme : String
  pub host : String
  pub hostname : String

-- strconv.Itoa: 20 digits hold every int.
abbrev numerals : List String
numerals = "0" ∷ "1" ∷ "2" ∷ "3" ∷ "4" ∷ "5" ∷ "6" ∷ "7" ∷ "8" ∷ "9" ∷ []

digit : ℕ → String
digit n = elim (get_elem? numerals n) [ none ↦ "" | some s ↦ s ]

digits : ℕ → ℕ → String
unfolding digit
digits zero n = ""
digits (suc fuel) n =
    let front = digits fuel (n / 10) in if ltb n 10 then digit n else join front (digit (n % 10))

unfoldable pub itoa : ℤ → String
unfolding digits
itoa (pos n) = digits 20 n
itoa (negsuc n) = join "-" (digits 20 (suc n))

unfoldable pub block_by_id : String → List Block → Option Block
block_by_id id [] = none
block_by_id id (b ∷ bs) = if str_eq b.id id then some b else block_by_id id bs

-- The shards whose name is the block's with a slash and something after it.
unfoldable pub count_shards : String → List String → ℕ
count_shards block [] = 0
count_shards block (id ∷ ids) =
    if ltb (len block + 1) (len id) && starts_with id (join block "/")
    then suc (count_shards block ids)
    else count_shards block ids

-- `added < 0` is 0; an unknown block has no targets.
unfoldable pub added_targets : String → List Block → List String → ℕ
unfolding count_shards block_by_id
added_targets block blocks ids =
    count_shards block ids
    - elim (block_by_id block blocks) [ none ↦ 0 | some b ↦ length b.targets ]

unfoldable pub scheme_for : String → String
scheme_for p =
    if str_eq p "http"
    then "https"
    else if str_eq p "ssh"
    then "ssh"
    else if str_eq p "dns"
    then "dns"
    else if str_eq p "stream"
    then "stream"
    else p

unfoldable pub patch_err : String → String → GoErr
patch_err code msg = new_error class_config code "Run.ApplyPatch" msg

-- structuralCheck, of an address that has been parsed or not.
unfoldable pub structural_check : String → String → Option Url → Option GoErr
unfolding scheme_for patch_err
structural_check proto addr none =
    some (patch_err "engine.patch.structural" (join "TargetsAdd invalid address: " addr))
structural_check proto addr (some u) =
    if str_eq u.scheme ""
    then none
    else if str_eq u.scheme (scheme_for proto)
    then none
    else some (
        patch_err "engine.patch.structural" (
          join "TargetsAdd protocol scheme "
            (join u.scheme (join " does not match block protocol " proto))))

-- hostOf
unfoldable pub host_of : String → Option Url → Option String
host_of addr none = none
host_of addr (some u) = if str_eq u.host "" then some addr else some u.hostname

unfoldable pub append_detail : String → String → Dict String → Dict String
append_detail key tid detail =
    put key (join (elim (get key detail) [ none ↦ "" | some old ↦ old ]) (join tid " ")) detail

unfoldable pub targets_add_err : String → String → GoErr
unfolding patch_err
targets_add_err msg subject = patch_err "engine.patch.targets_add" (join msg subject)
