-- ===== src/Scenario/Hosts.antt =====
-- internal/scenario/validate.go: a target is `host[:port]`. net.ParseIP is an argument, as the question
-- whether a text is the address of an IP.
pub mod Sound
use phantom_traffic.Prelude.{
  ℕ, Bool, true, false, not, ◌&&◌, ◌||◌, List, [], ◌∷◌, Option, none, some, ◌⊎◌, inl, inr, String,
  if◌then◌else◌, ltb, leb, ◌==◌, length,
}
use phantom_traffic.Prelude.Int.{pos, ltb_ℤ}
use phantom_traffic.Prelude.Text.{
  Bytes, codes, trim_space, contains, cut, count_byte, split, atoi, trim_suffix,
}
use phantom_traffic.Protocols.{Target}
use phantom_traffic.Protocols.Allow.{has_byte}

unfoldable pub alnum : ℕ → Bool
alnum c = (leb 97 c && leb c 122) || ((leb 65 c && leb c 90) || (leb 48 c && leb c 57))

unfoldable pub label_bytes : Bytes → Bool
unfolding alnum
label_bytes [] = true
label_bytes (c ∷ cs) = (alnum c || (c == 45)) && label_bytes cs

unfoldable pub last_byte : ℕ → Bytes → ℕ
last_byte c [] = c
last_byte c (d ∷ ds) = last_byte d ds

unfoldable pub valid_label : Bytes → Bool
unfolding label_bytes last_byte
valid_label [] = false
valid_label (c ∷ cs) =
    leb (length (c ∷ cs)) 63
    && (not (c == 45) && (not (last_byte c cs == 45) && label_bytes (c ∷ cs)))

unfoldable pub valid_labels : List Bytes → Bool
unfolding valid_label
valid_labels [] = true
valid_labels (l ∷ ls) = valid_label l && valid_labels ls

unfoldable pub valid_name : Bytes → Bool
unfolding valid_labels
valid_name host = leb (length host) 253 && valid_labels (split 46 host)

module _ (is_ip : Bytes → Bool) where
  unfoldable pub valid_host : Bytes → Bool
  unfolding valid_name
  valid_host [] = false
  valid_host (c ∷ cs) = is_ip (c ∷ cs) || valid_name (c ∷ cs)

-- net.SplitHostPort of a text that begins with a bracket: what follows the bracket.
unfoldable pub split_bracket : Bytes → Option (Bytes × Bytes)
unfolding has_byte
split_bracket rest = elim (cut 93 rest) [
  | none ↦ none
  | some (host, []) ↦ none
  | some (host, c ∷ port) ↦
      if (c == 58)
        && (not (has_byte 58 port)
            && (not (has_byte 91 host || has_byte 91 port) && not (has_byte 93 port)))
      then some (host, port)
      else none
]

-- The host and the port, if there is one; `none` where there is more than one colon.
unfoldable pub host_port : Bytes → Option (Bytes × Option Bytes)
unfolding split_bracket
host_port [] = some ([], none)
host_port (c ∷ cs) =
    if c == 91
    then elim (split_bracket cs) [
      | some (host, port) ↦ some (host, some port)
      | none ↦ some (trim_suffix 93 cs, none)
    ]
    else if count_byte 58 (c ∷ cs) == 1
    then elim (cut 58 (c ∷ cs)) [ some (host, port) ↦ some (host, some port) | none ↦ none ]
    else if ltb 1 (count_byte 58 (c ∷ cs))
    then none
    else some (c ∷ cs, none)

unfoldable pub valid_port : Option Bytes → Bool
valid_port none = true
valid_port (some port) = elim (atoi port) [
  | none ↦ false
  | some n ↦ not (ltb_ℤ n (pos 1) || ltb_ℤ (pos 65535) n)
]

abbrev pub bad_host : String
bad_host = "target host is not a valid hostname or IP"

module _ (is_ip : Bytes → Bool) where
  unfoldable pub check_parts : Option (Bytes × Option Bytes) → Option String
  unfolding valid_port valid_host
  check_parts none = some bad_host
  check_parts (some (host, port)) =
      if not (valid_port port)
      then some "port must be in 1..65535"
      else if not (valid_host is_ip host)
      then some bad_host
      else none

  -- What is wrong with the trimmed text.
  unfoldable pub target_reason : Bytes → Option String
  unfolding contains has_byte host_port check_parts
  target_reason [] = some "target must be non-empty"
  target_reason (c ∷ cs) =
      if contains (c ∷ cs) (58 ∷ 47 ∷ 47 ∷ [])
      then some "target must be host[:port], not a URL (remove the scheme)"
      else if has_byte 64 (c ∷ cs)
      then some "target must not contain embedded credentials ('@')"
      else check_parts (host_port (c ∷ cs))

  unfoldable pub validate_target : String → String → String ⊎ Target
  unfolding target_reason
  validate_target addr proto =
      let raw = trim_space addr in
      elim (target_reason (codes raw)) [
        | some reason ↦ inl reason
        | none ↦ inr (record { id = raw; proto = proto; addr = raw })
      ]
