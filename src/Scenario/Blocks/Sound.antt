-- ===== src/Scenario/Blocks/Sound.antt =====
-- internal/scenario/validate.go: what a block with no errors is.
use phantom_traffic.Prelude.{
  ℕ, suc, ◌+◌, ◌<◌, ◌≡◌, refl, sym, ap, subst, Bool, true, false, not, ◌&&◌, ◌||◌, List, [], ◌∷◌,
  Option, none, some, ◌⊎◌, inl, inr, String, if◌then◌else◌, ◌==◌, arith, All, length,
}
use phantom_traffic.Prelude.Int.{ℤ, pos, ◌≤ℤ◌, ltb_ℤ}
use phantom_traffic.Prelude.Clock.{Duration}
use phantom_traffic.Prelude.Dict.{Dict, get}
use phantom_traffic.Prelude.Text.{Bytes, codes, is_blank, contains}
use phantom_traffic.Pterr.Fields.{append-nil_parts, add_if-nil}
use phantom_traffic.Protocols.{Target}
use phantom_traffic.Protocols.Allow.{has_byte}
use phantom_traffic.Protocols.Action.{is_known_protocol}
use phantom_traffic.Engine.Pacing.{RampPlan}
use phantom_traffic.Persona.{Library, Persona}
use phantom_traffic.Scenario.{Block, RawBlock, RawRamp}
use phantom_traffic.Scenario.Hosts.{validate_target}
use phantom_traffic.Scenario.Hosts.Sound.{IsAddr, validate_target-IsAddr}
use phantom_traffic.Scenario.Windows.{is_none}
use phantom_traffic.Scenario.Blocks.{
  Options, or_one, start_of, seconds_of, duration_of, persona_name, no_target, target_errors,
  targets_errors, add_target, targets_of, load_errors, ramp_of, ramp_errors, insecure_errors,
  proto_of, block_errors, or_persona, block_of,
}

module _ (is_ip : Bytes → Bool) where
  -- What validate_target-IsAddr says of a target.
  abbrev pub IsTarget : String → Target → Type 0
  IsTarget proto t =
      (t.id ≡ t.addr)
      × (t.proto ≡ proto)
      × (contains (codes t.addr) (58 ∷ 47 ∷ 47 ∷ []) ≡ false)
      × (has_byte 64 (codes t.addr) ≡ false)
      × IsAddr is_ip (codes t.addr)

  add_target-All :
      {F : Type 0} (lib : Library) (i j : ℕ) (proto a : String) (rest : List Target) (n : ℕ)
      (o : String ⊎ Target)
      → validate_target is_ip a proto ≡ o
      → target_errors {F = F} lib is_ip i j o ≡ []
      → (length rest ≡ n) × All (IsTarget proto) rest
      → (length (add_target o rest) ≡ suc n) × All (IsTarget proto) (add_target o rest)
  add_target-All lib i j proto a rest n (inl reason) e none' h = absurd (cc)
  add_target-All lib i j proto a rest n (inr t) e none' h =
      let (trimmed, id, same, scheme, user, parts) = validate_target-IsAddr is_ip a proto t e in
      (ap suc h.0, ((id, same, scheme, user, parts), h.1))

  targets_of-All :
      {F : Type 0} (lib : Library) (i j : ℕ) (proto : String) (addrs : List String)
      → targets_errors {F = F} lib is_ip i j proto addrs ≡ []
      → (length (targets_of is_ip proto addrs) ≡ length addrs)
        × All (IsTarget proto) (targets_of is_ip proto addrs)
  unfolding targets_errors targets_of
  targets_of-All lib i j proto [] h = (refl, tt)
  targets_of-All lib i j proto (a ∷ addrs) h =
      let (first, rest) = append-nil_parts _ _ h in
      add_target-All lib i j proto a (targets_of is_ip proto addrs) (length addrs)
        (validate_target is_ip a proto) refl first (targets_of-All lib i (j + 1) proto addrs rest)

no_target_lem : (addrs : List String) → no_target addrs ≡ false → 0 < length addrs
no_target_lem [] h = absurd (cc)
no_target_lem (a ∷ addrs) h = omega arith

proto_of-IsKnown :
    (rb : RawBlock)
    → not (is_known_protocol rb.protocol) ≡ false
    → is_known_protocol (proto_of rb) ≡ true
proto_of-IsKnown rb h = go (is_known_protocol rb.protocol) refl h
  where
    go :
        (b : Bool)
        → is_known_protocol rb.protocol ≡ b
        → not b ≡ false
        → is_known_protocol (if b then rb.protocol else "") ≡ true
    go true e k = e
    go false e k = absurd (cc)

or_persona_lem :
    {F : Type 0} (zero : Persona F) (o : Option (Persona F))
    → is_none o ≡ false
    → o ≡ some (or_persona zero o)
or_persona_lem zero none h = absurd (cc)
or_persona_lem zero (some p) h = refl

-- A ramp that reaches the block's concurrency within its duration.
pub record IsRamp (rr : RawRamp) (plan : RampPlan) (concurrency : ℤ) (duration : Duration)
    : Type 0 where
  pub seconds : pos 0 ≤ℤ rr.up_seconds
  pub within : plan.up ≤ℤ duration
  pub start_at_least : pos 1 ≤ℤ plan.start_concurrency
  pub start_at_most : plan.start_concurrency ≤ℤ concurrency

abbrev pub IsRampOf : Option RawRamp → RampPlan → ℤ → Duration → Type 0
IsRampOf none plan concurrency duration = plan ≡ record { up = pos 0; start_concurrency = pos 0 }
IsRampOf (some rr) plan concurrency duration = IsRamp rr plan concurrency duration

-- The tests of the code, as orders.
not_below : (low n : ℤ) → ltb_ℤ n low ≡ false → low ≤ℤ n
not_below low n h = ground arith

not_above : (b : Bool) (n high : ℤ) → b ≡ false → not b && ltb_ℤ high n ≡ false → n ≤ℤ high
not_above b n high h k = ground arith

in_bounds :
    (low n high : ℤ)
    → ltb_ℤ n low ≡ false
    → not (ltb_ℤ n low) && ltb_ℤ high n ≡ false
    → (low ≤ℤ n) × (n ≤ℤ high)
in_bounds low n high h k = (not_below low n h, not_above (ltb_ℤ n low) n high h k)

in_range : (n high : ℤ) → ltb_ℤ n (pos 1) || ltb_ℤ high n ≡ false → (pos 1 ≤ℤ n) × (n ≤ℤ high)
in_range n high h = (ground arith, ground arith)

unlocked :
    (asked blank flag : Bool)
    → asked && blank ≡ false
    → asked && not flag ≡ false
    → asked ≡ true
    → (flag ≡ true) × (blank ≡ false)
unlocked asked blank flag h k e = (ground arith, ground arith)

weight_lem : (w : ℕ) → 0 < (if w == 0 then 1 else w)
weight_lem w = ground arith

module _ {F : Type 0} (lib : Library) (is_ip : Bytes → Bool) where
  load_errors-nil :
      (i : ℕ) (rb : RawBlock) (max : ℤ)
      → load_errors {F = F} lib is_ip i rb max ≡ []
      → (pos 1 ≤ℤ or_one rb.concurrency)
        × (or_one rb.concurrency ≤ℤ max)
        × (pos 1 ≤ℤ rb.duration_minutes)
  unfolding load_errors
  load_errors-nil i rb max e =
      let (low, e1) = append-nil_parts _ _ e in
      let (high, minutes) = append-nil_parts _ _ e1 in
      let (at_least, at_most) =
        in_bounds (pos 1) (or_one rb.concurrency) max (add_if-nil _ _ _ low)
          (add_if-nil _ _ _ high) in
      (at_least, at_most, not_below (pos 1) rb.duration_minutes (add_if-nil _ _ _ minutes))

  ramp_errors-nil :
      (i : ℕ) (o : Option RawRamp) (concurrency : ℤ) (duration : Duration)
      → ramp_errors {F = F} lib is_ip i o concurrency duration ≡ []
      → IsRampOf o (ramp_of o concurrency) concurrency duration
  unfolding ramp_errors ramp_of
  ramp_errors-nil i none concurrency duration e = refl
  ramp_errors-nil i (some rr) concurrency duration e =
      let (low, e1) = append-nil_parts _ _ e in
      let (long, start) = append-nil_parts _ _ e1 in
      let seconds = add_if-nil _ _ _ low in
      let (at_least, at_most) =
        in_range (start_of rr concurrency) concurrency (add_if-nil _ _ _ start) in
      record {
        seconds = not_below (pos 0) rr.up_seconds seconds;
        within =
            not_above (ltb_ℤ rr.up_seconds (pos 0)) (seconds_of rr.up_seconds) duration seconds
              (add_if-nil _ _ _ long);
        start_at_least = at_least;
        start_at_most = at_most;
      }

  insecure_errors-nil :
      (i : ℕ) (rb : RawBlock) (opts : Options)
      → insecure_errors {F = F} lib is_ip i rb opts ≡ []
      → rb.allow_insecure ≡ true
      → (opts.allow_insecure ≡ true) × (is_blank (codes rb.allow_insecure_reason) ≡ false)
  unfolding insecure_errors
  insecure_errors-nil i rb opts e h =
      let (reason, flag) = append-nil_parts _ _ e in
      unlocked rb.allow_insecure (is_blank (codes rb.allow_insecure_reason)) opts.allow_insecure
        (add_if-nil _ _ _ reason) (add_if-nil _ _ _ flag) h

  -- A block that can run.
  pub record IsSoundBlock (opts : Options) (personas : Dict (Persona F)) (max : ℤ) (rb : RawBlock)
      (b : Block F) : Type 0 where
    pub named : (b.id ≡ rb.id) × (is_blank (codes b.id) ≡ false)
    pub known : is_known_protocol b.protocol ≡ true
    pub some_target : 0 < length b.targets
    pub every_target : length b.targets ≡ length rb.targets
    pub addressed : All (IsTarget is_ip b.protocol) b.targets
    pub resolved : get (persona_name rb) personas ≡ some b.persona
    pub at_least : pos 1 ≤ℤ b.concurrency
    pub at_most : b.concurrency ≤ℤ max
    pub minutes : pos 1 ≤ℤ rb.duration_minutes
    pub weighted : 0 < b.weight
    pub ramped : IsRampOf rb.ramp b.ramp b.concurrency b.duration
    pub insecure :
        b.allow_insecure ≡ true
        → (opts.allow_insecure ≡ true) × (is_blank (codes b.allow_insecure_reason) ≡ false)

  pub block_of-IsSoundBlock :
      (zero : Persona F) (i : ℕ) (rb : RawBlock) (opts : Options) (personas : Dict (Persona F))
      (max : ℤ)
      → block_errors lib is_ip i rb opts personas max ≡ []
      → IsSoundBlock opts personas max rb (block_of is_ip zero rb personas)
  unfolding block_errors block_of
  block_of-IsSoundBlock zero i rb opts personas max e0 =
      let (id, e1) = append-nil_parts _ _ e0 in
      let (protocol, e2) = append-nil_parts _ _ e1 in
      let (rotation, e3) = append-nil_parts _ _ e2 in
      let (interval, e4) = append-nil_parts _ _ e3 in
      let (given, e5) = append-nil_parts _ _ e4 in
      let (targets, e6) = append-nil_parts _ _ e5 in
      let (persona, e7) = append-nil_parts _ _ e6 in
      let (load, e8) = append-nil_parts _ _ e7 in
      let (ramp, insecure) = append-nil_parts _ _ e8 in
      let (low, high, minutes) = load_errors-nil i rb max load in
      let (same, all) = targets_of-All is_ip lib i 0 (proto_of rb) rb.targets targets in
      let some' = no_target_lem rb.targets (add_if-nil _ _ _ given) in
      record {
        named = (refl, add_if-nil _ _ _ id);
        known = proto_of-IsKnown rb (add_if-nil _ _ _ protocol);
        some_target = subst (λ n. 0 < n) (sym same) some';
        every_target = same;
        addressed = all;
        resolved = or_persona_lem zero (get (persona_name rb) personas) (add_if-nil _ _ _ persona);
        at_least = low;
        at_most = high;
        minutes = minutes;
        weighted = weight_lem rb.weight;
        ramped = ramp_errors-nil i rb.ramp (or_one rb.concurrency) (duration_of rb) ramp;
        insecure = insecure_errors-nil i rb opts insecure;
      }
