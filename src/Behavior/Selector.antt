-- ===== src/Behavior/Selector.antt =====
-- internal/behavior/selector.go and bounds.go: a selector is an interface over its own state, the round robin
-- one of them, and the bounds of a branch.
use phantom_traffic.Prelude.{
  ℕ, ◌+◌, ◌%◌, Bool, List, [], ◌∷◌, Option, none, some, String, length, get_elem?,
}
use phantom_traffic.Prelude.Int.{ℤ, pos, ltb_ℤ}
use phantom_traffic.Prelude.Dict.{Dict, get, put}
use phantom_traffic.Protocols.{Target}

pub data BranchKind : Type 0 where
  branch_redirect branch_cname branch_link_follow branch_abr_switch : BranchKind

pub record BranchBounds : Type 0 where
  pub max_redirects : ℤ
  pub max_cname : ℤ
  pub max_links_followed : ℤ
  pub max_abr_switches : ℤ

unfoldable pub default_branch_bounds : BranchBounds
default_branch_bounds = record {
  max_redirects = pos 10;
  max_cname = pos 8;
  max_links_followed = pos 20;
  max_abr_switches = pos 12;
}

unfoldable pub allows : BranchBounds → BranchKind → ℤ → Bool
allows b branch_redirect count = ltb_ℤ count b.max_redirects
allows b branch_cname count = ltb_ℤ count b.max_cname
allows b branch_link_follow count = ltb_ℤ count b.max_links_followed
allows b branch_abr_switch count = ltb_ℤ count b.max_abr_switches

-- TargetSelector
pub record TargetSelector (S : Type 0) : Type 0 where
  pub next_target : String → S → S × Option Target

pub record RoundRobin : Type 0 where
  pub by_proto : Dict (List Target)
  pub idx : Dict ℕ

-- s.byProto[proto] and s.idx[proto], the zero value where the key is missing.
abbrev pub targets_of : String → RoundRobin → List Target
targets_of proto s = elim (get proto s.by_proto) [ none ↦ [] | some ts ↦ ts ]

abbrev pub idx_of : String → RoundRobin → ℕ
idx_of proto s = elim (get proto s.idx) [ none ↦ 0 | some i ↦ i ]

unfoldable pub rotate_in : String → RoundRobin → List Target → RoundRobin × Option Target
rotate_in proto s [] = (s, none)
rotate_in proto s (t ∷ ts) = (
  record s { idx = put proto (idx_of proto s + 1) s.idx },
  get_elem? (t ∷ ts) (idx_of proto s % length (t ∷ ts)),
)

unfoldable pub round_robin_next : String → RoundRobin → RoundRobin × Option Target
unfolding rotate_in
round_robin_next proto s = rotate_in proto s (targets_of proto s)
