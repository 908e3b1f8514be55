-- ===== src/Engine/Scheduler/Follows.antt =====
-- internal/engine/run.go, runScheduler: the gate against the schedule, with the operator's calls between.
use phantom_traffic.Prelude.{
  ℕ, ◌+◌, ◌≤◌, ◌<◌, ◌≡◌, ◌≢◌, ◌∙◌, sym, ap, subst, true, false, not, ◌&&◌, Option, none, some,
  arith, All, Bool-cases, inl, inr,
}
use phantom_traffic.Prelude.Clock.{Time, IsFixed, day_length, since, saturate}
use phantom_traffic.Engine.Gate.{Gate, operator, schedule, pause, resume, is_open, new_gate}
use phantom_traffic.Engine.Gate.Accounting.{Inv, new_gate-Inv, pause-Inv, resume-Inv, pause-ne-none}
use phantom_traffic.Engine.Scheduler.{
  Phase, looks, sleeps, returned, canceled, set_gate, delay, phase_after, System, system,
  OperatorCall, operator_pauses, operator_resumes, operate, Step, round, tick, wake, cancel,
  tick_returned, tick_canceled, operated, Reaches, here, next_step,
}
use phantom_traffic.Scenario.{Schedule}
use phantom_traffic.Schedule.{active, next_transition}
use phantom_traffic.Schedule.Edges.{IsDaily}
use phantom_traffic.Schedule.Weekly.{IsNext, next_transition-IsNext}

open_after : (now : Time) (g : Gate) → (resume schedule now g).schedule_paused ≡ false
unfolding resume
open_after now g = ground arith

shut_after : (now : Time) (g g' : Gate) → pause schedule now g ≡ some g' → g'.schedule_paused ≡ true
unfolding pause
shut_after now g g' e = ground arith

pause_keeps :
    (now : Time) (g g' : Gate)
    → pause operator now g ≡ some g'
    → g'.schedule_paused ≡ g.schedule_paused
unfolding pause
pause_keeps now g g' e = ground arith

resume_keeps : (now : Time) (g : Gate) → (resume operator now g).schedule_paused ≡ g.schedule_paused
unfolding resume
resume_keeps now g = ground arith

set_gate-Inv :
    (s : Schedule) (now : Time) (g g' : Gate)
    → Inv g
    → set_gate s now g ≡ some g'
    → Inv g' × (g'.schedule_paused ≡ not (active s now))
unfolding set_gate
set_gate-Inv s now g g' v e = elim (Bool-cases (active s now)) [
  | inl on ↦
      let same : resume schedule now g ≡ g' = ground arith in
      rw on (
        subst (λ x. Inv x × (x.schedule_paused ≡ false)) same
          (resume-Inv schedule now g v, open_after now g))
  | inr off ↦
      let shut : pause schedule now g ≡ some g' = ground arith in
      rw off (pause-Inv schedule now g g' v shut, shut_after now g g' shut)
]

set_gate-ne-none : (s : Schedule) (now : Time) (g : Gate) → Inv g → set_gate s now g ≢ none
unfolding set_gate
set_gate-ne-none s now g v e = elim (Bool-cases (active s now)) [
  | inl on ↦ absurd (cc)
  | inr off ↦ pause-ne-none schedule now g v (ground arith)
]

operate-Inv :
    (c : OperatorCall) (now : Time) (g g' : Gate)
    → Inv g
    → operate c now g ≡ some g'
    → Inv g' × (g'.schedule_paused ≡ g.schedule_paused)
unfolding operate
operate-Inv operator_pauses now g g' v e = (pause-Inv operator now g g' v e, pause_keeps now g g' e)
operate-Inv operator_resumes now g g' v e =
    let same : resume operator now g ≡ g' = ground arith in
    subst (λ x. Inv x × (x.schedule_paused ≡ g.schedule_paused)) same
      (resume-Inv operator now g v, resume_keeps now g)

-- The sleep ends after the round and not after the transition.
delay_bounds : (next now : Time) → now < next → (0 < delay next now) × (now + delay next now ≤ next)
unfolding delay since saturate
delay_bounds next now h = (ground arith, ground arith)

module _ (s : Schedule) (shift : ℕ) (fixed : IsFixed s.loc shift) where
  -- The source of the gate is as the schedule says, up to an instant.
  abbrev Until : Gate → Time → Time → Type 0
  Until g from until = (v : Time) → from ≤ v → v < until → g.schedule_paused ≡ not (active s v)

  abbrev Kept : Time → Gate → Phase → Type 0
  Kept now g looks = Unit
  Kept now g (sleeps until) = Until g now until
  Kept now g returned = (v : Time) → now ≤ v → g.schedule_paused ≡ not (active s v)
  Kept now g canceled = Unit

  abbrev Invariant : System → Type 0
  Invariant x = (day_length ≤ x.now) × Inv x.gate × Kept x.now x.gate x.phase

  phase_after-Kept :
      (now : Time) (g : Gate) (o : Option Time)
      → IsNext (active s) now o
      → g.schedule_paused ≡ not (active s now)
      → Kept now g (phase_after now o)
  unfolding phase_after
  phase_after-Kept now g none h e = λ v le. e ∙ ap not (sym (h v le))
  phase_after-Kept now g (some next) h e =
      λ v le lt. let bounds = delay_bounds next now h.0 in e ∙ ap not (sym (h.2 v le (omega arith)))

  carried :
      (now : Time) (g g' : Gate) (p : Phase)
      → g'.schedule_paused ≡ g.schedule_paused
      → Kept now g p
      → Kept now g' p
  carried now g g' looks e k = tt
  carried now g g' (sleeps until) e k = λ v le lt. e ∙ k v le lt
  carried now g g' returned e k = λ v le. e ∙ k v le
  carried now g g' canceled e k = tt

  Step-Invariant : (x y : System) → All IsDaily s.windows → Step s x y → Invariant x → Invariant y
  Step-Invariant _ _ d (round now g g' e) (b, v, k) =
      let (v', set') = set_gate-Inv s now g g' v e in
      (
        b,
        v',
        phase_after-Kept now g' (next_transition s now)
            (next_transition-IsNext s shift fixed now d b) set',
      )
  Step-Invariant _ _ d (tick now until g lt) (b, v, k) =
      (omega arith, v, λ w le bound. k w (omega arith) bound)
  Step-Invariant _ _ d (wake until g) (b, v, k) = (b, v, tt)
  Step-Invariant _ _ d (cancel now until g) (b, v, k) = (b, v, tt)
  Step-Invariant _ _ d (tick_returned now g) (b, v, k) = (omega arith, v, λ w le. k w (omega arith))
  Step-Invariant _ _ d (tick_canceled now g) (b, v, k) = (omega arith, v, tt)
  Step-Invariant _ _ d (operated c now g g' p e) (b, v, k) =
      let (v', same) = operate-Inv c now g g' v e in (b, v', carried now g g' p same k)

  Reaches-Invariant :
      (x y : System) → All IsDaily s.windows → Reaches s x y → Invariant x → Invariant y
  Reaches-Invariant _ _ d (here x) i = i
  Reaches-Invariant _ _ d (next_step x y z r step) i =
      Step-Invariant y z d step (Reaches-Invariant x y d r i)

  -- What holds of the gate in a phase of the loop.
  abbrev pub IsFollowing : Time → Gate → Phase → Type 0
  IsFollowing now g looks = set_gate s now g ≢ none
  IsFollowing now g (sleeps until) =
      now < until → is_open g ≡ (active s now && not g.operator_paused)
  IsFollowing now g returned = is_open g ≡ (active s now && not g.operator_paused)
  IsFollowing now g canceled = Unit

  opened :
      (now : Time) (g : Gate)
      → g.schedule_paused ≡ not (active s now)
      → is_open g ≡ (active s now && not g.operator_paused)
  unfolding is_open
  opened now g e = ground arith

  following : (now : Time) (g : Gate) (p : Phase) → Inv g → Kept now g p → IsFollowing now g p
  following now g looks v k = set_gate-ne-none s now g v
  following now g (sleeps until) v k = λ lt. opened now g (k now (omega arith) lt)
  following now g returned v k = opened now g (k now (omega arith))
  following now g canceled v k = tt

  -- From a new gate, however the rounds of runScheduler, the passing of time and the operator's calls
  -- interleave: while the loop sleeps, and for ever after it has returned for want of a further
  -- transition, the gate is open exactly where the schedule is active and the operator has not paused
  -- the run; and a round never panics. Conditions: the location of the schedule is at a fixed offset from
  -- UTC (where its clocks change, the gate can be off on that day), no window reaches past the end of its
  -- day, the run starts at least a day after the zero time, and no time passes between the end of a sleep
  -- and the next round.
  pub scheduler_follows :
      (t : Time) (x : System)
      → All IsDaily s.windows
      → day_length ≤ t
      → Reaches s (system t new_gate looks) x
      → IsFollowing x.now x.gate x.phase
  scheduler_follows t x d h r =
      let (_, v, k) = Reaches-Invariant (system t new_gate looks) x d r (h, new_gate-Inv, tt) in
      following x.now x.gate x.phase v k
