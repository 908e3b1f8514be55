-- ===== src/Tests/Lifecycle.antt =====
-- Runs of the gate, the lifecycle and the semaphore.
use phantom_traffic.Prelude.{
  ◌≡◌, ◌≤◌, ◌<◌, refl, true, false, not, List, [], ◌∷◌, none, some, arith, total,
}
use phantom_traffic.Prelude.Int.{pos}
use phantom_traffic.Prelude.Clock.{Time}
use phantom_traffic.Engine.State.{State, running, paused, stopped, is_terminal}
use phantom_traffic.Engine.Gate.{Gate, new_gate, operator, schedule, is_open, paused_total}
use phantom_traffic.Engine.Gate.Accounting.{Call, pauses, resumes, run, run_accounting}
use phantom_traffic.Engine.Lifecycle.{
  Run, patch_audit, patches, pause_begin, resume_begin, stop_begin, complete_begin, drained, System,
  Slot, run_all,
}
use phantom_traffic.Engine.Lifecycle.Ownership.{signaller, done_once}
use phantom_traffic.Engine.Lifecycle.Terminal.{Extends, terminal_absorbs}
use phantom_traffic.Engine.Lifecycle.Interleaving.{at, IsLive, lost_completion}
use phantom_traffic.Engine.Semaphore.{Semaphore, new_semaphore}
use phantom_traffic.Engine.Semaphore.Drain.{
  Call as SemCall, acquires, releases, resizes, Inv as SemInv, apply_all, permits_bounded,
}

abbrev gate_calls : List (Time × Call)
gate_calls =
    (63900000000000000005, pauses operator)
    ∷ (63900000000000000007, pauses schedule)
    ∷ (63900000000000000009, resumes operator)
    ∷ (63900000000000000030, resumes schedule)
    ∷ []

run_accounting_example :
    (g : Gate) × (run gate_calls new_gate ≡ some g)
    × (g.close_notify.is_closed ≡ not (is_open g))
    × (paused_total 63900000000000000040 g ≡ pos 4)
run_accounting_example =
    run_accounting 63900000000000000001 gate_calls 63900000000000000040 (omega arith) (omega arith)
      (ground arith)

abbrev run_in : State → Run
run_in state = record {
  core = record { id = "run-1"; state = state; audit = some [] };
  gate = record {
    operator_paused = false;
    schedule_paused = false;
    close_notify = record { id = 0; is_closed = false };
    op_paused_at = 0;
    op_paused_total = pos 0;
  };
  cancelled = false;
  done = false;
  err = none;
}

abbrev two_endings : System
two_endings = record { run = run_in running; threads = stop_begin ∷ complete_begin ∷ [] }

abbrev slots : List Slot
slots =
    at 1 3 ∷ at 0 4 ∷ at 1 5 ∷ record { thread = 1; now = 6; wake = drained } ∷ at 1 7 ∷ at 1 8 ∷ []

done_once_example :
    let s' = run_all slots two_endings in
    (s'.run.done ≡ true → is_terminal s'.run.core.state ≡ true)
    × (0 < total signaller s'.threads
        → (s'.run.done ≡ false) × (is_terminal s'.run.core.state ≡ true))
    × (total signaller s'.threads ≤ 1)
done_once_example =
    done_once slots two_endings
      (record { stop_owned = refl; complete_owned = refl; signalled = refl })

terminal_absorbs_example :
    let c =
      (run_all slots (record {
        run = run_in stopped;
        threads = patch_audit (patches "agent" [] ∷ []) ∷ pause_begin ∷ [];
      })).run.core in
    (c.state ≡ stopped) × Extends (run_in stopped).core.id (run_in stopped).core.audit c.audit
terminal_absorbs_example =
    terminal_absorbs slots
      (record {
        run = run_in stopped;
        threads = patch_audit (patches "agent" [] ∷ []) ∷ pause_begin ∷ [];
      })
      refl

lost_completion_example :
    IsLive
      (run_all
        (at 0 2 ∷ at 1 3 ∷ [])
        (record { run = run_in paused; threads = complete_begin ∷ resume_begin ∷ [] })).run
lost_completion_example =
    lost_completion 2 (at 1 3 ∷ []) (run_in paused) (resume_begin ∷ []) refl refl (tt, tt)

abbrev sem_calls : List SemCall
sem_calls = acquires none ∷ acquires none ∷ resizes (pos 1) ∷ acquires none ∷ releases ∷ []

permits_bounded_example : SemInv (pos 2) (apply_all sem_calls (new_semaphore (pos 2)))
unfolding new_semaphore
permits_bounded_example =
    permits_bounded (pos 2) sem_calls (new_semaphore (pos 2)) (omega arith) (omega arith)
      (ground arith)
      (record { held_nonneg = omega arith; held_top = omega arith; limit_top = omega arith })

abbrev two_held : Semaphore
two_held = record { limit = pos 5; held = pos 2 }
