-- ===== src/Protocols/Allow.antt =====
-- internal/protocols/target.go: the frozen allowlist of a scenario. A host is compared by its bytes.
pub mod Permits
use phantom_traffic.Prelude.{
  ℕ, Bool, true, false, ◌&&◌, ◌||◌, List, [], ◌∷◌, ◌++◌, Option, none, some, String, if◌then◌else◌,
  ◌==◌,
}
use phantom_traffic.Prelude.Text.{
  Bytes, codes, trim_space, count_byte, trim_prefix, trim_suffix, lower,
}
use phantom_traffic.Prelude.Dict.{Dict, get, put}
use phantom_traffic.Protocols.{Target}

unfoldable pub has_byte : ℕ → Bytes → Bool
has_byte b [] = false
has_byte b (c ∷ cs) = (c == b) || has_byte b cs

-- What stands before the last such byte.
unfoldable pub before_last : ℕ → Bytes → Bytes
unfolding has_byte
before_last b [] = []
before_last b (c ∷ cs) =
    let rest = before_last b cs in
    if has_byte b cs then c ∷ rest else if c == b then [] else c ∷ rest

-- The host of `host[:port]`: `[v6]:port`, `[v6]`, `name:port`, or all of it.
unfoldable pub strip_port : Bytes → Bytes
unfolding before_last count_byte
strip_port [] = []
strip_port (c ∷ cs) =
    if has_byte 58 (c ∷ cs)
    then (if c == 91
        then (if has_byte 93 (before_last 58 (c ∷ cs)) then before_last 58 (c ∷ cs) else c ∷ cs)
        else if count_byte 58 (c ∷ cs) == 1
        then before_last 58 (c ∷ cs)
        else c ∷ cs)
    else c ∷ cs

unfoldable pub normalize_host : String → Bytes
unfolding strip_port trim_space trim_prefix trim_suffix lower
normalize_host hostport =
    lower
      (trim_suffix 93 (trim_prefix 91 (trim_suffix 46 (strip_port (codes (trim_space hostport))))))

unfoldable pub same_host : Bytes → Bytes → Bool
same_host [] [] = true
same_host [] (b ∷ bs) = false
same_host (a ∷ rest) [] = false
same_host (a ∷ rest) (b ∷ bs) = (a == b) && same_host rest bs

unfoldable pub member : Bytes → List Bytes → Bool
unfolding same_host
member h [] = false
member h (x ∷ xs) = same_host x h || member h xs

-- `hosts` is a set: the keys of a map.
pub record TargetSet : Type 0 where
  pub by_proto : Dict (List Target)
  pub hosts : List Bytes

abbrev pub add_host : Bytes → List Bytes → List Bytes
add_host [] hosts = hosts
add_host (c ∷ cs) hosts = (c ∷ cs) ∷ hosts

abbrev pub or_empty : Option (List Target) → List Target
or_empty none = []
or_empty (some ts) = ts

unfoldable pub group : List Target → Dict (List Target) → Dict (List Target)
group [] m = m
group (t ∷ ts) m = group ts (put t.proto (or_empty (get t.proto m) ++ t ∷ []) m)

unfoldable pub target_hosts : List Target → List Bytes
unfolding normalize_host
target_hosts [] = []
target_hosts (t ∷ ts) = add_host (normalize_host t.addr) (target_hosts ts)

unfoldable pub domain_hosts : List String → List Bytes
unfolding normalize_host
domain_hosts [] = []
domain_hosts (d ∷ ds) = add_host (normalize_host d) (domain_hosts ds)

unfoldable pub new_target_set : List Target → List String → TargetSet
unfolding group target_hosts domain_hosts
new_target_set targets domains = record {
  by_proto = group targets [];
  hosts = target_hosts targets ++ domain_hosts domains;
}

unfoldable pub permits : TargetSet → String → Bool
unfolding member normalize_host
permits ts host = member (normalize_host host) ts.hosts

unfoldable pub targets_for : TargetSet → String → List Target
targets_for ts p = or_empty (get p ts.by_proto)
