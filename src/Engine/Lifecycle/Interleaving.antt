-- ===== src/Engine/Lifecycle/Interleaving.antt =====
-- internal/engine/run.go: Pause and Resume as two steps each, the transition and the gate, and what calls
-- that overlap do.
use phantom_traffic.Prelude.{
  ℕ, ◌≡◌, refl, Bool, true, false, List, [], ◌∷◌, arith, All, All-set, All-get_elem?, get_elem?,
  Option-cases, inl, inr, ◌⊎◌,
}
use phantom_traffic.Prelude.Clock.{Time}
use phantom_traffic.Engine.State.{State, running, paused, transition_to}
use phantom_traffic.Engine.Gate.{is_open, pause, resume}
use phantom_traffic.Engine.Gate.Accounting.{Inv}
use phantom_traffic.Engine.Lifecycle.{
  Run, Pc, pause_begin, pause_gate, resume_begin, resume_gate, complete_begin, schedule_pause,
  schedule_resume, returned, panicked, failed, Wake, asleep, step_pc, System, Slot, step, run_all,
}

-- A goroutine that runs two steps with no other in between: a whole call of Pause or Resume.
unfoldable pub call : Time → Pc → Run → Run × Pc
call now pc r = let (r', pc') = step_pc now asleep pc r in step_pc now asleep pc' r'

abbrev is_paused_state : State → Bool
is_paused_state paused = true
is_paused_state _ = false

pub record Together (r : Run) : Type 0 where
  pub gate_inv : Inv r.gate
  pub same : r.gate.operator_paused ≡ is_paused_state r.core.state

-- A whole call of Pause or Resume, accepted or refused, keeps the operator's side of the gate shut
-- exactly in Paused.
pub call-Together :
    (now : Time) (r : Run) (pc : Pc)
    → (pc ≡ pause_begin) ⊎ (pc ≡ resume_begin)
    → Together r
    → Together (call now pc r).0
unfolding call step_pc transition_to pause resume is_open
call-Together now r pc (inl e) t = rw e (ground arith)
call-Together now r pc (inr e) t = rw e (ground arith)

abbrev pub at : ℕ → Time → Slot
at i t = record { thread = i; now = t; wake = asleep }

-- If Resume overtakes a Pause between its transition and its call of the gate, both calls return
-- without an error, and the run is in Running with the operator's side of the gate shut.
pub overtaken_pause :
    (t₁ t₂ t₃ t₄ : Time) (r : Run) (threads : List Pc)
    → r.core.state ≡ running
    → r.gate.operator_paused ≡ false
    → Inv r.gate
    → let s =
        run_all
          (at 0 t₁ ∷ at 1 t₂ ∷ at 1 t₃ ∷ at 0 t₄ ∷ [])
          (record { run = r; threads = pause_begin ∷ resume_begin ∷ threads }) in
      (s.run.core.state ≡ running)
      × (s.run.gate.operator_paused ≡ true)
      × (s.threads ≡ returned ∷ returned ∷ threads)
unfolding run_all step step_pc transition_to pause resume is_open
overtaken_pause t₁ t₂ t₃ t₄ r threads h k v = ground arith

-- Goroutines that are in Pause, Resume or the scheduler, or that have returned.
abbrev pub Pausing : Pc → Type 0
Pausing pause_begin = Unit {0}
Pausing pause_gate = Unit {0}
Pausing resume_begin = Unit {0}
Pausing resume_gate = Unit {0}
Pausing schedule_pause = Unit {0}
Pausing schedule_resume = Unit {0}
Pausing returned = Unit {0}
Pausing panicked = Unit {0}
Pausing (failed e) = Unit {0}
Pausing _ = ⊥

abbrev pub IsLive : Run → Type 0
IsLive r = ((r.core.state ≡ running) ⊎ (r.core.state ≡ paused)) × (r.done ≡ false)

step_pc-IsLive :
    (now : Time) (wake : Wake) (pc : Pc) (r : Run)
    → Pausing pc
    → IsLive r
    → IsLive (step_pc now wake pc r).0 × Pausing (step_pc now wake pc r).1
unfolding step_pc transition_to
step_pc-IsLive now wake pause_begin r p l = ground arith
step_pc-IsLive now wake _ r p l = ground arith

step-IsLive :
    (slot : Slot) (s : System)
    → All Pausing s.threads
    → IsLive s.run
    → IsLive (step slot s).run × All Pausing (step slot s).threads
unfolding step
step-IsLive slot s p l = elim (Option-cases (get_elem? s.threads slot.thread)) [
  | inl e ↦ rw (e, step) (l, p)
  | inr (pc, e) ↦
      let (live, q) =
        step_pc-IsLive slot.now slot.wake pc s.run
          (All-get_elem? Pausing s.threads slot.thread pc p e) l in
      rw (e, step) (live, All-set Pausing s.threads slot.thread _ q p)
]

run_all-IsLive :
    (slots : List Slot) (s : System)
    → All Pausing s.threads
    → IsLive s.run
    → IsLive (run_all slots s).run
unfolding run_all
run_all-IsLive [] s p l = l
run_all-IsLive (slot ∷ slots) s p l =
    let (live, q) = step-IsLive slot s p l in run_all-IsLive slots (step slot s) q live

-- If the operator's pause takes effect between the end of the last block's duration and the
-- transition to Completing, `complete` gives up, and no schedule of Pause, Resume and the scheduler
-- ever ends the run: it stays Running or Paused, with done open.
pub lost_completion :
    (now : Time) (slots : List Slot) (r : Run) (threads : List Pc)
    → r.core.state ≡ paused
    → r.done ≡ false
    → All Pausing threads
    → IsLive
        (run_all (at 0 now ∷ slots) (record { run = r; threads = complete_begin ∷ threads })).run
unfolding run_all step step_pc transition_to
lost_completion now slots r threads h d p = rw h (run_all-IsLive slots _ (tt, p) (inr refl, d))
