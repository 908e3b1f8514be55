-- ===== src/Behavior/Fingerprint/Checked.antt =====
-- internal/behavior/fingerprint.go: what the checks of a pool let through.
use phantom_traffic.Prelude.{
  ℕ, ◌+◌, ◌≤◌, ◌<◌, ◌≡◌, ◌≢◌, refl, subst, Bool, true, false, List, [], ◌∷◌, Option, none, some,
  inr, arith, All, length,
}
use phantom_traffic.Prelude.Text.{Bytes, contains}
use phantom_traffic.Behavior.Fingerprint.{
  Fingerprint, PrintErr, unsafe_index, is_unsafe_header_byte, check_header_value,
  chrome_major_from_ua, version_token, sec_ch_ua_has_version, check_versions, check_chromium,
  then_check, validate_fingerprint, first_bad, new_fingerprint_pool,
}

-- A byte that cannot end a header line: no control byte, and not DEL.
abbrev pub IsSafe : ℕ → Type 0
IsSafe c = (32 ≤ c) × (c ≢ 127)

abbrev pub IsHeader : Bytes → Type 0
IsHeader s = (length s ≤ 512) × All IsSafe s

-- A version in the user agent that the brand list repeats.
abbrev pub SameVersion : Fingerprint → Type 0
SameVersion f =
    (major : ℕ) × (chrome_major_from_ua f.user_agent ≡ some major)
    × (contains f.sec_ch_ua (version_token major) ≡ true)

pub record IsConsistent (f : Fingerprint) : Type 0 where
  pub agent : IsHeader f.user_agent
  pub language : IsHeader f.accept_language
  pub brands : IsHeader f.sec_ch_ua
  pub platform : IsHeader f.sec_ch_ua_platform
  pub named : (f.user_agent ≢ []) × (f.accept_language ≢ [])
  pub versions : f.sec_ch_ua ≢ [] → (f.sec_ch_ua_platform ≢ []) × SameVersion f

unsafe_index-none : (s : Bytes) → unsafe_index s ≡ none → All IsSafe s
unfolding unsafe_index is_unsafe_header_byte
unsafe_index-none [] h = tt
unsafe_index-none (c ∷ cs) h =
    let rest : unsafe_index cs ≡ none = ground arith in (ground arith, unsafe_index-none cs rest)

check_header_value-none :
    (s : Bytes) (required : Bool) → check_header_value s required ≡ none → IsHeader s
unfolding check_header_value
check_header_value-none [] required h = (omega arith, tt)
check_header_value-none (c ∷ cs) required h =
    let short : length (c ∷ cs) ≤ 512 = ground arith in
    let safe : unsafe_index (c ∷ cs) ≡ none = ground arith in
    (short, unsafe_index-none (c ∷ cs) safe)

check_header-required : (s : Bytes) → check_header_value s true ≡ none → s ≢ []
unfolding check_header_value
check_header-required [] h e = cc
check_header-required (c ∷ cs) h e = cc

then_check-none : (a b : Option PrintErr) → then_check a b ≡ none → (a ≡ none) × (b ≡ none)
then_check-none none b h = (refl, h)
then_check-none (some e) b h = absurd (cc)

check_versions-none :
    (f : Fingerprint) (o : Option ℕ)
    → chrome_major_from_ua f.user_agent ≡ o
    → check_versions f o ≡ none
    → SameVersion f
unfolding check_versions sec_ch_ua_has_version
check_versions-none f none e h = absurd (cc)
check_versions-none f (some major) e h = (major, e, ground arith)

check_chromium-none :
    (s platform : Bytes) (f : Fingerprint)
    → check_chromium s platform f ≡ none
    → s ≢ []
    → (platform ≢ []) × SameVersion f
unfolding check_chromium
check_chromium-none [] platform f h ne = absurd (ne refl)
check_chromium-none (c ∷ cs) [] f h ne = absurd (cc)
check_chromium-none (c ∷ cs) (p ∷ ps) f h ne =
    (λ e. cc, check_versions-none f (chrome_major_from_ua f.user_agent) refl h)

validate_fingerprint-IsConsistent :
    (f : Fingerprint) → validate_fingerprint f ≡ none → IsConsistent f
unfolding validate_fingerprint
validate_fingerprint-IsConsistent f h =
    let (agent, h1) = then_check-none _ _ h in
    let (language, h2) = then_check-none _ _ h1 in
    let (brands, h3) = then_check-none _ _ h2 in
    let (platform, chromium) = then_check-none _ _ h3 in
    record {
      agent = check_header_value-none f.user_agent true agent;
      language = check_header_value-none f.accept_language true language;
      brands = check_header_value-none f.sec_ch_ua false brands;
      platform = check_header_value-none f.sec_ch_ua_platform false platform;
      named = (
        check_header-required f.user_agent agent,
        check_header-required f.accept_language language,
      );
      versions = check_chromium-none f.sec_ch_ua f.sec_ch_ua_platform f chromium;
    }

first_bad-none : (i : ℕ) (fs : List Fingerprint) → first_bad i fs ≡ none → All IsConsistent fs
unfolding first_bad
first_bad-none i [] h = tt
first_bad-none i (f ∷ fs) h =
    let good : validate_fingerprint f ≡ none = ground arith in
    let rest : first_bad (i + 1) fs ≡ none = ground arith in
    (validate_fingerprint-IsConsistent f good, first_bad-none (i + 1) fs rest)

-- Every print of a pool that NewFingerprintPool accepts is safe in a header and consistent: its four
-- values have at most 512 bytes and no control byte, so that none can end a header line; the user
-- agent and the language are there; and where there is a brand list, the platform is there and the
-- list names the Chrome version of the user agent. The pool holds the prints given, at least one.
pub new_fingerprint_pool-IsConsistent :
    (fs pool : List Fingerprint)
    → new_fingerprint_pool fs ≡ inr pool
    → (pool ≡ fs) × (0 < length pool) × All IsConsistent pool
unfolding new_fingerprint_pool
new_fingerprint_pool-IsConsistent [] pool h = absurd (cc)
new_fingerprint_pool-IsConsistent (f ∷ fs) pool h =
    let good : first_bad 0 (f ∷ fs) ≡ none = ground arith in
    let same : f ∷ fs ≡ pool = ground arith in
    subst (λ p. (p ≡ f ∷ fs) × (0 < length p) × All IsConsistent p) same
      (refl, omega arith, first_bad-none 0 (f ∷ fs) good)
