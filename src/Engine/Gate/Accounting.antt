-- ===== src/Engine/Gate/Accounting.antt =====
-- internal/engine/gate.go: what the gate keeps between calls, its channel and the operator's pauses.
use phantom_traffic.Prelude.{
  ap, ◌∙◌, ◌≢◌, ℕ, ◌+◌, ◌-◌, ◌^◌, ◌≤◌, ◌<◌, ◌≡◌, refl, Bool, true, false, not, List, [], ◌∷◌,
  Option, none, some, arith, Option-cases, inl, inr, if◌then◌else◌,
}
use phantom_traffic.Prelude.Int.{pos, pos_part, ◌+ℤ◌, int64}
use phantom_traffic.Prelude.Clock.{Time, since, since_exact}
use phantom_traffic.Engine.Gate.{
  Source, operator, schedule, Gate, new_gate, is_open, pause, resume, paused_total,
}

pub record Inv (g : Gate) : Type 0 where
  pub notify_shut : g.close_notify.is_closed ≡ not (is_open g)
  pub stamp_clear : g.operator_paused ≡ false → g.op_paused_at ≡ 0

pub new_gate-Inv : Inv new_gate
unfolding new_gate is_open
new_gate-Inv = ground arith

pub data Call : Type 0 where
  pauses resumes : Source → Call

unfoldable pub apply : Time → Call → Gate → Option Gate
apply now (pauses src) g = pause src now g
apply now (resumes src) g = some (resume src now g)

-- Calls in order, each with the time at which it is made.
unfoldable pub run : List (Time × Call) → Gate → Option Gate
run [] g = some g
run ((now, c) ∷ cs) g = elim (apply now c g) [ none ↦ none | some g' ↦ run cs g' ]

-- Whether the operator has paused the run, after a call.
abbrev pub next_paused : Call → Bool → Bool
next_paused (pauses operator) p = true
next_paused (resumes operator) p = false
next_paused _ p = p

-- The time during which the operator's pause is in force, added up over the gaps between calls.
abbrev pub paused_time : Bool → Time → List (Time × Call) → Time → ℕ
paused_time p t [] end = if p then end - t else 0
paused_time p t ((t', c) ∷ cs) end =
    (if p then t' - t else 0) + paused_time (next_paused c p) t' cs end

-- The clock does not run backwards.
abbrev pub InOrder : Time → List (Time × Call) → Time → Type 0
InOrder t [] end = t ≤ end
InOrder t ((t', c) ∷ cs) end = (t ≤ t') × InOrder t' cs end

InOrder-le : (t : Time) (cs : List (Time × Call)) (end : Time) → InOrder t cs end → t ≤ end
InOrder-le t [] end o = o
InOrder-le t ((t', c) ∷ cs) end o = omega (arith, InOrder-le t' cs end o.1)

-- At time `t` the finished pauses, with the one in progress, last `spent`, all of it since `first`.
record Account (first : Time) (g : Gate) (t : Time) (spent : ℕ) : Type 0 where
  inv : Inv g
  recorded : g.op_paused_total ≡ pos (pos_part g.op_paused_total)
  running :
      spent ≡ pos_part g.op_paused_total + (if g.operator_paused then t - g.op_paused_at else 0)
  started : g.operator_paused ≡ true → (first ≤ g.op_paused_at) × (g.op_paused_at ≤ t)
  bounded : first + spent ≤ t

-- The accumulation does not wrap while the total is within the range of `Duration`.
add_since :
    (total now start : ℕ)
    → start ≤ now
    → total + (now - start) < 2 ^ 63
    → int64 (pos total +ℤ since now start) ≡ pos (total + (now - start))
unfolding ◌+ℤ◌ int64
add_since total now start h b = rw (since_exact now start h (omega arith)) (ground arith)

pub pause-Inv :
    (src : Source) (now : Time) (g g' : Gate) → Inv g → pause src now g ≡ some g' → Inv g'
unfolding pause
pause-Inv operator now g g' v e = ground arith
pause-Inv schedule now g g' v e = ground arith

pub resume-Inv : (src : Source) (now : Time) (g : Gate) → Inv g → Inv (resume src now g)
unfolding resume
resume-Inv operator now g v = ground arith
resume-Inv schedule now g v = ground arith

pub pause-ne-none : (src : Source) (now : Time) (g : Gate) → Inv g → pause src now g ≢ none
unfolding pause
pause-ne-none operator now g v = ground arith
pause-ne-none schedule now g v = ground arith

apply-ne-none : (now : Time) (c : Call) (g : Gate) → Inv g → apply now c g ≢ none
unfolding apply
apply-ne-none now (pauses src) g v = pause-ne-none src now g v
apply-ne-none now (resumes src) g v = λ e. cc

apply-Account :
    (first now : Time) (c : Call) (g g' : Gate) (spent : ℕ)
    → 0 < first
    → now - first < 2 ^ 63
    → Account first g now spent
    → apply now c g ≡ some g'
    → Account first g' now spent × (g'.operator_paused ≡ next_paused c g.operator_paused)
unfolding apply pause resume
apply-Account first now (pauses operator) g g' spent h k a e =
    ground (arith, pause-Inv operator now g g' a.inv)
apply-Account first now (pauses schedule) g g' spent h k a e =
    ground (arith, pause-Inv schedule now g g' a.inv)
apply-Account first now (resumes operator) g g' spent h k a e = ground (
  arith,
  resume-Inv operator now g a.inv,
  add_since (pos_part g.op_paused_total) now g.op_paused_at,
)
apply-Account first now (resumes schedule) g g' spent h k a e =
    ground (arith, resume-Inv schedule now g a.inv)

-- Time passes between two calls.
wait-Account :
    (first t t' : Time) (g : Gate) (spent : ℕ)
    → t ≤ t'
    → Account first g t spent
    → Account first g t' (spent + (if g.operator_paused then t' - t else 0))
wait-Account first t t' g spent h a = ground arith

total-Account :
    (first end : Time) (g : Gate) (spent : ℕ)
    → 0 < first
    → end - first < 2 ^ 63
    → Account first g end spent
    → paused_total end g ≡ pos spent
unfolding paused_total
total-Account first end g spent h k a =
    ground (arith, add_since (pos_part g.op_paused_total) end g.op_paused_at)

abbrev Accounted : Option Gate → Time → ℕ → Type 0
Accounted r end spent = (g : Gate) × (r ≡ some g) × Inv g × (paused_total end g ≡ pos spent)

run-Accounted :
    (first t : Time) (cs : List (Time × Call)) (end : Time) (g : Gate) (spent : ℕ)
    → 0 < first
    → end - first < 2 ^ 63
    → InOrder t cs end
    → Account first g t spent
    → Accounted (run cs g) end (spent + paused_time g.operator_paused t cs end)
unfolding run
run-Accounted first t [] end g spent h k o a =
    let later = wait-Account first t end g spent o a in
    (g, refl, a.inv, total-Account first end g _ h k later)
run-Accounted first t ((t', c) ∷ cs) end g spent h k o a = elim (Option-cases (apply t' c g)) [
  | inl e ↦ absurd (apply-ne-none t' c g a.inv e)
  | inr (g', e) ↦
      let later = wait-Account first t t' g spent o.0 a in
      let made =
        apply-Account first t' c g g' _ h (omega (arith, InOrder-le t' cs end o.1)) later e in
      let rest = run-Accounted first t' cs end g' _ h k o.1 made.0 in
      rw (e, run) (rest.0, rest.1, rest.2, rest.3 ∙ ap pos (rw made.1 (omega arith)))
]

-- Whatever calls are made on a new gate, in the order of the clock, none of them panics; the
-- channel that `waitOpenAndGetCloseCh` hands out is closed exactly while the gate is shut; and
-- `pausedTotal` is the time during which the operator's pause was in force, the schedule's pauses
-- left out. Conditions: the first instant is not the zero time, and the calls span less than 2^63
-- nanoseconds (292 years).
pub run_accounting :
    (t : Time) (cs : List (Time × Call)) (end : Time)
    → 0 < t
    → end - t < 2 ^ 63
    → InOrder t cs end
    → (g : Gate) × (run cs new_gate ≡ some g)
      × (g.close_notify.is_closed ≡ not (is_open g))
      × (paused_total end g ≡ pos (paused_time false t cs end))
unfolding new_gate
run_accounting t cs end h k o =
    let (g, made, inv, spent) = run-Accounted t t cs end new_gate 0 h k o (record {
      inv = new_gate-Inv;
      recorded = refl;
      running = omega arith;
      started = λ e. cc;
      bounded = omega arith;
    }) in
    (g, made, inv.notify_shut, spent ∙ ap pos (omega arith))
