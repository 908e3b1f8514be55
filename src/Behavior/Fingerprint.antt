-- ===== src/Behavior/Fingerprint.antt =====
-- internal/behavior/fingerprint.go: the identities that a browser's headers show, and their checks. A
-- header value is its bytes; the JSON table that is embedded in the binary is an argument.
pub mod Checked
use phantom_traffic.Prelude.{
  ℕ, suc, ◌+◌, Bool, true, false, ◌||◌, List, [], ◌∷◌, ◌++◌, Option, none, some, ◌⊎◌, inl, inr,
  if◌then◌else◌, ltb, ◌==◌, length,
}
use phantom_traffic.Prelude.Text.{Bytes, codes, has_prefix, contains, is_digit, decimal?}
use phantom_traffic.Engine.Naming.{itoa}
use phantom_traffic.Prelude.Int.{pos}

pub record Fingerprint : Type 0 where
  pub user_agent : Bytes
  pub sec_ch_ua : Bytes
  pub sec_ch_ua_platform : Bytes
  pub accept_language : Bytes

pub data PrintErr : Type 0 where
  empty_pool : PrintErr
  missing : PrintErr
  too_long : PrintErr
  unsafe_byte : ℕ → PrintErr
  no_platform : PrintErr
  no_chrome : PrintErr
  version_mismatch : PrintErr
  -- behavior: fingerprint[%d]: %w
  at_print : ℕ → PrintErr → PrintErr

unfoldable pub is_unsafe_header_byte : ℕ → Bool
is_unsafe_header_byte r = (r == 13) || ((r == 10) || (ltb r 32 || (r == 127)))

-- strings.IndexFunc
unfoldable pub unsafe_index : Bytes → Option ℕ
unfolding is_unsafe_header_byte
unsafe_index [] = none
unsafe_index (c ∷ cs) =
    let rest = unsafe_index cs in
    if is_unsafe_header_byte c then some 0 else elim rest [ none ↦ none | some i ↦ some (suc i) ]

unfoldable pub check_header_value : Bytes → Bool → Option PrintErr
unfolding unsafe_index
check_header_value [] required = if required then some missing else none
check_header_value (c ∷ cs) required =
    if ltb 512 (length (c ∷ cs))
    then some too_long
    else elim (unsafe_index (c ∷ cs)) [ some i ↦ some (unsafe_byte i) | none ↦ none ]

-- The bytes of "Chrome/".
unfoldable pub chrome_marker : Bytes
chrome_marker = 67 ∷ 104 ∷ 114 ∷ 111 ∷ 109 ∷ 101 ∷ 47 ∷ []

-- What follows a prefix.
unfoldable pub drop_prefix : Bytes → Bytes → Bytes
drop_prefix [] s = s
drop_prefix (c ∷ cs) [] = []
drop_prefix (c ∷ cs) (d ∷ ds) = drop_prefix cs ds

-- What follows the first occurrence of the marker.
unfoldable pub after_marker : Bytes → Bytes → Option Bytes
unfolding has_prefix drop_prefix
after_marker marker [] = if has_prefix marker [] then some (drop_prefix marker []) else none
after_marker marker (c ∷ cs) =
    let rest = after_marker marker cs in
    if has_prefix marker (c ∷ cs) then some (drop_prefix marker (c ∷ cs)) else rest

unfoldable pub leading_digits : Bytes → Bytes
unfolding is_digit
leading_digits [] = []
leading_digits (c ∷ cs) = let rest = leading_digits cs in if is_digit c then c ∷ rest else []

-- strconv.Atoi of digits.
unfoldable pub small_decimal : Bytes → Option ℕ
unfolding decimal?
small_decimal s = elim (decimal? s) [
  | none ↦ none
  | some n ↦ if ltb n 9223372036854775808 then some n else none
]

unfoldable pub chrome_major_from_ua : Bytes → Option ℕ
unfolding after_marker chrome_marker leading_digits small_decimal
chrome_major_from_ua ua = elim (after_marker chrome_marker ua) [
  | none ↦ none
  | some rest ↦ small_decimal (leading_digits rest)
]

-- `v="` + Itoa(major) + `"`
unfoldable pub version_token : ℕ → Bytes
unfolding itoa
version_token major = (118 ∷ 61 ∷ 34 ∷ []) ++ (codes (itoa (pos major)) ++ 34 ∷ [])

unfoldable pub sec_ch_ua_has_version : Bytes → ℕ → Bool
unfolding contains version_token
sec_ch_ua_has_version s major = contains s (version_token major)

unfoldable pub check_versions : Fingerprint → Option ℕ → Option PrintErr
unfolding sec_ch_ua_has_version
check_versions f none = some no_chrome
check_versions f (some major) =
    if sec_ch_ua_has_version f.sec_ch_ua major then none else some version_mismatch

-- Chromium's consistency, of the platform and then of the versions.
unfoldable pub check_chromium : Bytes → Bytes → Fingerprint → Option PrintErr
unfolding chrome_major_from_ua check_versions
check_chromium [] platform f = none
check_chromium (c ∷ cs) [] f = some no_platform
check_chromium (c ∷ cs) (p ∷ ps) f = check_versions f (chrome_major_from_ua f.user_agent)

-- The first error of two checks.
abbrev pub then_check : Option PrintErr → Option PrintErr → Option PrintErr
then_check (some e) next = some e
then_check none next = next

unfoldable pub validate_fingerprint : Fingerprint → Option PrintErr
unfolding check_header_value check_chromium
validate_fingerprint f = then_check (check_header_value f.user_agent true) (
    then_check (check_header_value f.accept_language true) (
      then_check (check_header_value f.sec_ch_ua false) (
        then_check (check_header_value f.sec_ch_ua_platform false)
          (check_chromium f.sec_ch_ua f.sec_ch_ua_platform f))))

unfoldable pub first_bad : ℕ → List Fingerprint → Option PrintErr
unfolding validate_fingerprint
first_bad i [] = none
first_bad i (f ∷ fs) =
    let rest = first_bad (i + 1) fs in
    elim (validate_fingerprint f) [ some e ↦ some (at_print i e) | none ↦ rest ]

-- The pool is the list of its prints.
unfoldable pub new_fingerprint_pool : List Fingerprint → PrintErr ⊎ List Fingerprint
unfolding first_bad
new_fingerprint_pool [] = inl empty_pool
new_fingerprint_pool (f ∷ fs) = elim (first_bad 0 (f ∷ fs)) [ some e ↦ inl e | none ↦ inr (f ∷ fs) ]
