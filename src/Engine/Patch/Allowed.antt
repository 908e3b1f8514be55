-- ===== src/Engine/Patch/Allowed.antt =====
-- Which targets a patch can add.
use phantom_traffic.Prelude.{
  ◌≡◌, sym, subst, inl, inr, String, Bool, true, [], ◌∷◌, Option, none, some, Bool-cases,
  Option-cases,
}
use phantom_traffic.Prelude.Clock.{Time}
use phantom_traffic.Prelude.Dict.{Dict, get}
use phantom_traffic.Prelude.Float.{Float64}
use phantom_traffic.Pterr.{GoErr}
use phantom_traffic.Audit.{Event, cap_override_enabled}
use phantom_traffic.Safety.Caps.{CapSpec, CapPatch, with_patch}
use phantom_traffic.Engine.Naming.{Url, host_of}
use phantom_traffic.Engine.Patch.{
  ScenarioPatch, PatchedRun, Step, goes, fails, add_one, append_event, run_event, finish_patch,
  finish, caps_raised, set_caps, after_override, patch_caps, apply_patch,
}
use phantom_traffic.Prelude.{All, All-append}
use phantom_traffic.Prelude.Dict.{AllValues, get-AllValues, put-AllValues}
use phantom_traffic.Protocols.{Target}
use phantom_traffic.Engine.Selector.{Selector, set_interval, add_target}
use phantom_traffic.Engine.Patch.Guards.{if_else, append_taken, append_dropped}
use phantom_traffic.Engine.Patch.Parts.{EachRun, on_some-EachRun, Stable, parts-EachRun}

-- The address of a target has a host that the allowlist admits.
abbrev pub IsPermitted : (String → Option Url) → (String → Bool) → Target → Type 0
IsPermitted parse permits t =
    (host : String) × (host_of t.addr (parse t.addr) ≡ some host) × (permits host ≡ true)

-- All targets that the selector rotates through satisfy `P`.
abbrev pub Rotates : (Target → Type 0) → Selector Target → Type 0
Rotates P s = AllValues (λ st. All P st.targets) s.by_proto

add_target-Rotates :
    (P : Target → Type 0) (now : Time) (proto : String) (t : Target) (s : Selector Target)
    → P t
    → Rotates P s
    → Rotates P (add_target now proto t s)
unfolding add_target
add_target-Rotates P now proto t s p h = elim (Option-cases (get proto s.by_proto)) [
  | inl gone ↦
      rw (gone, add_target) (put-AllValues (λ st. All P st.targets) proto _ s.by_proto (p, tt) h)
  | inr (st, found) ↦
      let old = get-AllValues (λ st. All P st.targets) proto s.by_proto st h found in
      rw (found, add_target)
        (put-AllValues (λ st. All P st.targets) proto _ s.by_proto
          (All-append P st.targets (t ∷ []) old (p, tt)) h)
]

abbrev pub AllPermitted :
    {F : Type 0} → (String → Option Url) → (String → Bool) → PatchedRun F → Type 0
AllPermitted parse permits r = Rotates (IsPermitted parse permits) r.selector

AllPermitted-Stable :
    {F : Type 0} (parse : String → Option Url) (permits : String → Bool)
    → Stable {F = F} parse permits (AllPermitted parse permits)
unfolding add_one set_interval
AllPermitted-Stable parse permits = record {
  on_limit = λ r k g. g;
  on_weights = λ r w g. g;
  on_interval = λ r d g. g;
  on_breakers = λ r m g. g;
  on_target = λ now spec blk r detail host valid allowed g.
      add_target-Rotates (IsPermitted parse permits) now blk.protocol _ r.selector
        (host, valid, allowed) g;
}

module _ {F : Type 0} (ops : Float64 F) where
  overriding :
      (sink : Event → Option GoErr) (cp : CapPatch F) (r : PatchedRun F) (detail : Dict String)
      → caps_raised ops r.caps (with_patch r.caps cp) ≡ true
      → r.cap_override ≡ true
      → patch_caps ops sink cp r detail
        ≡ after_override ops
            (with_patch r.caps cp)
            detail
            (append_event sink (run_event cap_override_enabled (("run_id", r.id) ∷ []) r) r)
  unfolding patch_caps
  overriding sink cp r detail raised may = simp (raised, may)

  after_override-selector :
      (P : Selector Target → Type 0) (next : CapSpec F) (detail : Dict String)
      (q : PatchedRun F × Option GoErr)
      → P q.0.selector
      → EachRun (λ r'. P r'.selector) (after_override ops next detail q)
  unfolding after_override set_caps
  after_override-selector P next detail (r, some e) g = g
  after_override-selector P next detail (r, none) g = g

  append-selector :
      (P : Selector Target → Type 0) (sink : Event → Option GoErr) (e : Event) (r : PatchedRun F)
      → P r.selector
      → P (append_event sink e r).0.selector
  append-selector P sink e r g = elim (Option-cases (sink e)) [
    | inl taken ↦ subst (λ q. P q.0.selector) (sym (append_taken sink e r taken)) g
    | inr (err, dropped) ↦ subst (λ q. P q.0.selector) (sym (append_dropped sink e r err dropped)) g
  ]

  patch_caps-selector :
      (P : Selector Target → Type 0) (sink : Event → Option GoErr) (cp : CapPatch F)
      (r : PatchedRun F) (detail : Dict String)
      → P r.selector
      → EachRun (λ r'. P r'.selector) (patch_caps ops sink cp r detail)
  unfolding patch_caps set_caps append_event run_event
  patch_caps-selector P sink cp r detail g =
      elim (Bool-cases (caps_raised ops r.caps (with_patch r.caps cp))) [
        | inr kept ↦ rw (kept, patch_caps) g
        | inl raised ↦ elim (Bool-cases r.cap_override) [
          | inl may ↦
              subst (EachRun (λ r'. P r'.selector)) (sym (overriding sink cp r detail raised may)) (
                after_override-selector P (with_patch r.caps cp) detail _
                  (append-selector P sink _ r g))
          | inr locked ↦
              rw (raised, patch_caps) (if_else (λ r'. P r'.selector) r.cap_override _ _ locked g)
        ]
      ]

  finish-selector :
      (P : Selector Target → Type 0) (sink : Event → Option GoErr) (s : Step F)
      → EachRun (λ r'. P r'.selector) s
      → P (finish sink s).0.selector
  unfolding finish finish_patch append_event run_event
  finish-selector P sink (fails r e) g = g
  finish-selector P sink (goes r detail) g = append-selector P sink _ r g

  -- If every target that the selector rotates through has an address whose host the allowlist admits,
  -- this still holds after any patch, accepted or refused.
  pub apply_patch-AllPermitted :
      (sink : Event → Option GoErr) (parse : String → Option Url) (permits : String → Bool)
      (now : Time) (p : ScenarioPatch F) (r : PatchedRun F)
      → AllPermitted parse permits r
      → AllPermitted parse permits (apply_patch ops sink parse permits now p r).0
  unfolding apply_patch
  apply_patch-AllPermitted sink parse permits now p r g =
      let P = Rotates (IsPermitted parse permits) in
      let caps =
        on_some-EachRun (AllPermitted parse permits) p.caps (patch_caps ops sink) r [] g
          (λ cp. patch_caps-selector P sink cp r [] g) in
      finish-selector P sink _ (parts-EachRun (AllPermitted-Stable parse permits) now p _ caps)
