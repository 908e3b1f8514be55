-- ===== src/Engine/Patch.antt =====
-- internal/engine/patch.go: ApplyPatch, under the run's patchMu. The parser of URLs and the allowlist
-- are given, as is the audit sink: `sink e` is what Append of `e` returns, and the log holds what it took.
pub mod Parts
pub mod Guards
pub mod Partial
pub mod Allowed
use phantom_traffic.Prelude.{
  ℕ, suc, ◌+◌, ◌*◌, String, Bool, not, ◌||◌, List, [], ◌∷◌, ◌++◌, Option, none, some, if◌then◌else◌,
  length,
}
use Prim.Native.String.{◌++◌ as join}
use phantom_traffic.Prelude.Int.{ℤ, pos, negsuc, sub_ℕ, ltb_ℤ, leb_ℤ, int64}
use phantom_traffic.Prelude.Clock.{Time}
use phantom_traffic.Prelude.Dict.{Dict, get, put}
use phantom_traffic.Prelude.Float.{Float64}
use phantom_traffic.Pterr.{GoErr}
use phantom_traffic.Audit.{Action, Event, cap_override_enabled, scenario_patched}
use phantom_traffic.Protocols.{Target}
use phantom_traffic.Safety.Breaker.{Breaker, new_breaker, force_open}
use phantom_traffic.Safety.Caps.{CapSpec, CapPatch, with_patch}
use phantom_traffic.Engine.Semaphore.{Semaphore, set_limit}
use phantom_traffic.Engine.Selector.{Selector, set_interval, add_target}
use phantom_traffic.Engine.Stats.{Collector, add_shard}
use phantom_traffic.Engine.Naming.{
  Block, TargetSpec, Url, itoa, block_by_id, added_targets, structural_check, host_of,
  append_detail, patch_err, targets_add_err,
}
use phantom_traffic.Engine.Weights.{normalize_weights}

pub record ScenarioPatch (F : Type 0) : Type 0 where
  pub caps : Option (CapPatch F)
  pub concurrency : Option ℤ
  pub weights : Option (Dict ℕ)
  pub rotation_int_sec : Option ℤ
  pub targets_add : List TargetSpec
  pub targets_disable : List String

-- Of a Run: what a patch reads and writes. `sem` and `selector` are those of its first block.
pub record PatchedRun (F : Type 0) : Type 0 where
  pub id : String
  pub agent_id : String
  pub blocks : List Block
  pub cap_override : Bool
  pub caps : CapSpec F
  pub sem : Semaphore
  pub weights : Dict ℕ
  pub selector : Selector Target
  pub coll : Collector
  pub breakers : Dict Breaker
  pub log : List Event

-- A part of a patch returns the run, which it may have changed, and the detail so far or an error.
pub data Step (F : Type 0) : Type 0 where
  goes : PatchedRun F → Dict String → Step F
  fails : PatchedRun F → GoErr → Step F

-- time.Duration(sec) * time.Second
abbrev pub in_seconds : ℤ → ℤ
in_seconds (pos n) = int64 (pos (n * 1000000000))
in_seconds (negsuc n) = int64 (sub_ℕ 0 (suc n * 1000000000))

module _ {F : Type 0} where
  unfoldable pub then_do : Step F → (PatchedRun F → Dict String → Step F) → Step F
  then_do (goes r detail) next = next r detail
  then_do (fails r err) next = fails r err

  -- One branch of ApplyPatch: a nil field leaves all as it is.
  unfoldable pub on_some :
      {A : Type 0}
      → Option A
      → (A → PatchedRun F → Dict String → Step F)
      → PatchedRun F
      → Dict String
      → Step F
  on_some none f r detail = goes r detail
  on_some (some a) f r detail = f a r detail

  unfoldable pub patch_concurrency : ℤ → PatchedRun F → Dict String → Step F
  unfolding patch_err itoa
  patch_concurrency n r detail =
      if leb_ℤ n (pos 0)
      then fails r (patch_err "engine.patch.concurrency" "concurrency must be >= 1")
      else goes (record r { sem = set_limit n r.sem }) (put "concurrency" (itoa n) detail)

  unfoldable pub patch_weights : Dict ℕ → PatchedRun F → Dict String → Step F
  unfolding normalize_weights
  patch_weights w r detail =
      let (norm, err) = normalize_weights r.weights w in
      elim err [
        | some e ↦ fails r e
        | none ↦ goes (record r { weights = norm }) (put "weights" "patched" detail)
      ]

  unfoldable pub patch_rotation : ℤ → PatchedRun F → Dict String → Step F
  unfolding patch_err itoa
  patch_rotation sec r detail =
      if ltb_ℤ sec (pos 0)
      then fails r (patch_err "engine.patch.rotation" "rotation interval seconds must be >= 0")
      else goes (record r { selector = set_interval (in_seconds sec) r.selector })
          (put "rotation_interval_sec" (itoa sec) detail)

  -- The breakers that are made have 5 failures and 30 seconds.
  unfoldable pub add_one : Time → TargetSpec → Block → PatchedRun F → Dict String → Step F
  unfolding itoa added_targets append_detail
  add_one now spec blk r detail =
      let n = length blk.targets + added_targets blk.id r.blocks r.coll.target_ids in
      let tid = join blk.id (join "/" (itoa (pos n))) in
      let target : Target = record { id = tid; proto = blk.protocol; addr = spec.addr } in
      goes
        (record r {
          selector = add_target now blk.protocol target r.selector;
          coll = add_shard tid r.coll;
          breakers = put tid (new_breaker (pos 5) (pos 30000000000)) r.breakers;
        })
        (append_detail "targets_add" tid detail)

  unfoldable pub patch_targets_add :
      (String → Option Url)
      → (String → Bool)
      → Time
      → List TargetSpec
      → PatchedRun F
      → Dict String
      → Step F
  unfolding block_by_id structural_check host_of targets_add_err add_one then_do
  patch_targets_add parse permits now [] r detail = goes r detail
  patch_targets_add parse permits now (spec ∷ specs) r detail =
      elim (block_by_id spec.block_id r.blocks) [
        | none ↦ fails r (targets_add_err "TargetsAdd references unknown block: " spec.block_id)
        | some blk ↦ elim (structural_check blk.protocol spec.addr (parse spec.addr)) [
          | some e ↦ fails r e
          | none ↦ elim (host_of spec.addr (parse spec.addr)) [
            | none ↦ fails r (targets_add_err "TargetsAdd invalid address: " spec.addr)
            | some host ↦
                if permits host
                then then_do (add_one now spec blk r detail)
                    (λ r' detail'. patch_targets_add parse permits now specs r' detail')
                else fails r
                    (targets_add_err "TargetsAdd address not in allowed_domains: " spec.addr)
          ]
        ]
      ]

  unfoldable pub patch_targets_disable : Time → List String → PatchedRun F → Dict String → Step F
  unfolding patch_err append_detail
  patch_targets_disable now [] r detail = goes r detail
  patch_targets_disable now (tid ∷ tids) r detail = elim (get tid r.breakers) [
    | none ↦ fails r (
        patch_err "engine.patch.targets_disable"
          (join "TargetsDisable references unknown target: " tid))
    | some b ↦
        patch_targets_disable now tids
          (record r { breakers = put tid (force_open now b) r.breakers })
          (append_detail "targets_disable" tid detail)
  ]

  -- r.audit.Append(e)
  unfoldable pub append_event :
      (Event → Option GoErr) → Event → PatchedRun F → PatchedRun F × Option GoErr
  append_event sink e r = elim (sink e) [
    | none ↦ (record r { log = r.log ++ e ∷ [] }, none)
    | some err ↦ (r, some err)
  ]

  unfoldable pub run_event : Action → Dict String → PatchedRun F → Event
  run_event action detail r = record {
    actor = r.agent_id;
    action = action;
    resource = r.id;
    detail = detail;
  }

  unfoldable pub finish_patch :
      (Event → Option GoErr) → PatchedRun F → Dict String → PatchedRun F × Option GoErr
  unfolding append_event run_event
  finish_patch sink r detail =
      append_event sink (run_event scenario_patched (put "run_id" r.id detail) r) r

  finish : (Event → Option GoErr) → Step F → PatchedRun F × Option GoErr
  unfolding finish_patch
  finish sink (goes r detail) = finish_patch sink r detail
  finish sink (fails r err) = (r, some err)

  -- The parts after the caps, in ApplyPatch's order.
  unfoldable pub parts :
      (String → Option Url) → (String → Bool) → Time → ScenarioPatch F → Step F → Step F
  unfolding on_some then_do patch_concurrency patch_weights patch_rotation patch_targets_add
      patch_targets_disable
  parts parse permits now p caps =
      let concurrency = then_do caps (on_some p.concurrency patch_concurrency) in
      let weights = then_do concurrency (on_some p.weights patch_weights) in
      let rotation = then_do weights (on_some p.rotation_int_sec patch_rotation) in
      let added = then_do rotation (patch_targets_add parse permits now p.targets_add) in
      then_do added (patch_targets_disable now p.targets_disable)

module _ {F : Type 0} (ops : Float64 F) where
  unfoldable pub caps_raised : CapSpec F → CapSpec F → Bool
  caps_raised cur next =
      ops.flt cur.per_target_rps next.per_target_rps
      || ops.flt cur.global_rps next.global_rps
      || ltb_ℤ cur.total_request_budget next.total_request_budget

  set_caps : CapSpec F → PatchedRun F → Dict String → Step F
  set_caps next r detail = goes (record r { caps = next }) (put "caps" "patched" detail)

  -- The caps are raised once the audit log has the override.
  after_override : CapSpec F → Dict String → PatchedRun F × Option GoErr → Step F
  unfolding set_caps
  after_override next detail (r, some e) = fails r e
  after_override next detail (r, none) = set_caps next r detail

  unfoldable pub patch_caps :
      (Event → Option GoErr) → CapPatch F → PatchedRun F → Dict String → Step F
  unfolding caps_raised set_caps after_override append_event run_event patch_err
  patch_caps sink cp r detail =
      let next = with_patch r.caps cp in
      if caps_raised r.caps next
      then if r.cap_override
        then after_override next detail
            (append_event sink (run_event cap_override_enabled (("run_id", r.id) ∷ []) r) r)
        else fails r
            (patch_err "engine.patch.caps_up" "raising a safety cap requires the cap-override flag")
      else set_caps next r detail

  unfoldable pub apply_patch :
      (Event → Option GoErr)
      → (String → Option Url)
      → (String → Bool)
      → Time
      → ScenarioPatch F
      → PatchedRun F
      → PatchedRun F × Option GoErr
  unfolding on_some patch_caps parts finish
  apply_patch sink parse permits now p r =
      finish sink (parts parse permits now p (on_some p.caps (patch_caps sink) r []))
