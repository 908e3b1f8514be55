-- ===== src/Engine/Selector.antt =====
-- internal/engine/selector.go: the rotating target selector of a block. It hands targets on without
-- looking into them, so their type is a parameter; so is the answer `intn n` of rand.IntN(n). An
-- index out of range panics.
pub mod Allowlist
pub mod Rotation
use phantom_traffic.Prelude.{
  ℕ, ◌+◌, ◌%◌, String, List, [], ◌∷◌, ◌++◌, none, some, length, get_elem?, if◌then◌else◌,
}
use phantom_traffic.Prelude.Int.{pos, ltb_ℤ, leb_ℤ}
use phantom_traffic.Prelude.Clock.{Time, Duration, since}
use phantom_traffic.Prelude.Dict.{Dict, get, put}

pub data RotationStrategy : Type 0 where
  rotation_sequential rotation_random : RotationStrategy

pub record ProtoState (A : Type 0) : Type 0 where
  pub targets : List A
  pub idx : ℕ
  pub last_rotate : Time

pub record Selector (A : Type 0) : Type 0 where
  pub strategy : RotationStrategy
  pub interval : Duration
  pub by_proto : Dict (ProtoState A)

pub data Pick (A : Type 0) : Type 0 where
  target : A → Pick A
  absent : Pick A
  panicked : Pick A

-- What a call of Next reads of the clock and of the random source.
pub record Draw : Type 0 where
  pub measured : Time
  pub now : Time
  pub intn : ℕ → ℕ

unfoldable pub next_idx : RotationStrategy → (ℕ → ℕ) → ℕ → ℕ → ℕ
next_idx rotation_random intn idx n = intn n
next_idx rotation_sequential intn idx n = (idx + 1) % n

module _ {A : Type 0} where
  unfoldable pub init_states : Time → Dict (List A) → Dict (ProtoState A)
  init_states now [] = []
  init_states now ((proto, targets) ∷ m) =
      (proto, record { targets = targets; idx = 0; last_rotate = now }) ∷ init_states now m

  unfoldable pub new_rotating_selector :
      Time → RotationStrategy → Duration → Dict (List A) → Selector A
  unfolding init_states
  new_rotating_selector now strategy interval by_proto = record {
    strategy = strategy;
    interval = interval;
    by_proto = init_states now by_proto;
  }

  unfoldable pub maybe_rotate : Draw → Selector A → ProtoState A → ProtoState A
  unfolding next_idx
  maybe_rotate d s st =
      if leb_ℤ s.interval (pos 0)
      then st
      else if ltb_ℤ (since d.measured st.last_rotate) s.interval
      then st
      else record st {
        idx = next_idx s.strategy d.intn st.idx (length st.targets);
        last_rotate = d.now;
      }

  at_index : ProtoState A → Pick A
  at_index st = elim (get_elem? st.targets st.idx) [ none ↦ panicked | some a ↦ target a ]

  next_in : Draw → String → ProtoState A → List A → Selector A → Selector A × Pick A
  unfolding at_index
  next_in d proto st [] s = (s, absent)
  next_in d proto st (a ∷ rest) s =
      let st' = maybe_rotate d s st in
      (record s { by_proto = put proto st' s.by_proto }, at_index st')

  unfoldable pub next : Draw → String → Selector A → Selector A × Pick A
  unfolding next_in
  next d proto s = elim (get proto s.by_proto) [
    | none ↦ (s, absent)
    | some st ↦ next_in d proto st st.targets s
  ]

  unfoldable pub set_interval : Duration → Selector A → Selector A
  set_interval d s = record s { interval = d }

  unfoldable pub add_target : Time → String → A → Selector A → Selector A
  add_target now proto a s = elim (get proto s.by_proto) [
    | some st ↦ record s {
      by_proto = put proto (record st { targets = st.targets ++ a ∷ [] }) s.by_proto;
    }
    | none ↦ record s {
      by_proto = put proto (record { targets = a ∷ []; idx = 0; last_rotate = now }) s.by_proto;
    }
  ]
