-- ===== src/Engine/Lifecycle/Ownership.antt =====
-- internal/engine/run.go: who may finish a run, however the goroutines interleave.
use phantom_traffic.Prelude.{
  ℕ, ◌+◌, ◌≤◌, ◌<◌, ◌≡◌, Bool, true, false, List, [], ◌∷◌, some, arith, total, get_elem?, total-set,
  le-total, Option-cases, inl, inr,
}
use phantom_traffic.Prelude.Clock.{Time}
use phantom_traffic.Engine.State.{State, stopping, completing, transition_to, is_terminal}
use phantom_traffic.Engine.Lifecycle.{
  Run, Pc, pause_begin, stop_cancel, stop_wait, stop_finish, stop_signal, complete_cancel,
  complete_wait, complete_finish, complete_signal, Wake, step_pc, System, Slot, step, run_all,
}

abbrev stop_owner : Pc → ℕ
stop_owner stop_cancel = 1
stop_owner stop_wait = 1
stop_owner stop_finish = 1
stop_owner _ = 0

abbrev complete_owner : Pc → ℕ
complete_owner complete_cancel = 1
complete_owner complete_wait = 1
complete_owner complete_finish = 1
complete_owner _ = 0

abbrev pub signaller : Pc → ℕ
signaller stop_signal = 1
signaller complete_signal = 1
signaller _ = 0

abbrev flag : Bool → ℕ
flag true = 1
flag false = 0

abbrev is_stopping : State → Bool
is_stopping stopping = true
is_stopping _ = false

abbrev is_completing : State → Bool
is_completing completing = true
is_completing _ = false

-- The goroutines that own an ending, against the state that they have put the run in.
pub record Inv (s : System) : Type 0 where
  pub stop_owned : total stop_owner s.threads ≡ flag (is_stopping s.run.core.state)
  pub complete_owned : total complete_owner s.threads ≡ flag (is_completing s.run.core.state)
  pub signalled : total signaller s.threads + flag s.run.done ≡ flag (is_terminal s.run.core.state)

-- What one step of one goroutine does to the three counts.
record Counts (r : Run) (pc : Pc) (r' : Run) (pc' : Pc) : Type 0 where
  stop_kept :
      flag (is_stopping r'.core.state) + stop_owner pc
      ≡ flag (is_stopping r.core.state) + stop_owner pc'
  complete_kept :
      flag (is_completing r'.core.state) + complete_owner pc
      ≡ flag (is_completing r.core.state) + complete_owner pc'
  signal_kept :
      flag (is_terminal r'.core.state) + signaller pc + flag r.done
      ≡ flag (is_terminal r.core.state) + signaller pc' + flag r'.done

step_pc-Counts :
    (now : Time) (wake : Wake) (pc : Pc) (r : Run)
    → stop_owner pc ≤ flag (is_stopping r.core.state)
    → complete_owner pc ≤ flag (is_completing r.core.state)
    → signaller pc + flag r.done ≤ flag (is_terminal r.core.state)
    → Counts r pc (step_pc now wake pc r).0 (step_pc now wake pc r).1
unfolding step_pc transition_to
step_pc-Counts now wake pause_begin r h k l = ground arith
step_pc-Counts now wake _ r h k l = ground arith

step-Inv-some :
    (slot : Slot) (s : System) (pc : Pc)
    → get_elem? s.threads slot.thread ≡ some pc
    → Inv s
    → Inv (step slot s)
unfolding step
step-Inv-some slot s pc e v =
    let (r', pc') = step_pc slot.now slot.wake pc s.run in
    let counts =
      step_pc-Counts slot.now slot.wake pc s.run
        (omega (arith, v.stop_owned, le-total stop_owner s.threads slot.thread e))
        (omega (arith, v.complete_owned, le-total complete_owner s.threads slot.thread e))
        (omega (arith, v.signalled, le-total signaller s.threads slot.thread e)) in
    rw (e, step)
      (record {
        stop_owned = omega (
          arith,
          counts.stop_kept,
          total-set stop_owner s.threads slot.thread pc' e,
          v.stop_owned,
        );
        complete_owned = omega (
          arith,
          counts.complete_kept,
          total-set complete_owner s.threads slot.thread pc' e,
          v.complete_owned,
        );
        signalled = omega (
          arith,
          counts.signal_kept,
          total-set signaller s.threads slot.thread pc' e,
          v.signalled,
        );
      })

pub step-Inv : (slot : Slot) (s : System) → Inv s → Inv (step slot s)
unfolding step
step-Inv slot s v = elim (Option-cases (get_elem? s.threads slot.thread)) [
  | inl e ↦ rw (e, step) v
  | inr (pc, e) ↦ step-Inv-some slot s pc e v
]

run_all-Inv : (slots : List Slot) (s : System) → Inv s → Inv (run_all slots s)
unfolding run_all
run_all-Inv [] s v = v
run_all-Inv (slot ∷ slots) s v = run_all-Inv slots (step slot s) (step-Inv slot s v)

-- Under every schedule, from a system in which no ending is under way and done is open: done is
-- closed only in Stopped or Completed, only once (a goroutine about to close it finds it open),
-- and never by two goroutines.
pub done_once :
    (slots : List Slot) (s : System)
    → Inv s
    → let s' = run_all slots s in
      (s'.run.done ≡ true → is_terminal s'.run.core.state ≡ true)
      × (0 < total signaller s'.threads
          → (s'.run.done ≡ false) × (is_terminal s'.run.core.state ≡ true))
      × (total signaller s'.threads ≤ 1)
done_once slots s v =
    let w = (run_all-Inv slots s v).signalled in (ground arith, ground arith, ground arith)
