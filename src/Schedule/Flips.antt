-- ===== src/Schedule/Flips.antt =====
-- internal/schedule/schedule.go: the scan against the readings at which Active changes.
use phantom_traffic.Prelude.{
  ℕ, zero, suc, ◌+◌, ◌-◌, ◌*◌, ◌/◌, ◌%◌, ◌≤◌, ◌<◌, ◌≡◌, ◌≢◌, ◌∙◌, refl, sym, ap, subst, Bool, true,
  false, ◌||◌, List, [], ◌∷◌, Option, none, some, ◌⊎◌, inl, inr, arith, ◌==◌, All, Bool-cases,
  Option-cases,
}
use phantom_traffic.Prelude.Clock.{day_length, weekday}
use phantom_traffic.Scenario.{ScheduleWindow}
use phantom_traffic.Schedule.{on_day, in_window, in_any, active_local, same_state}
use phantom_traffic.Schedule.Local.{local_boundaries, scan_local_days, next_local}
use phantom_traffic.Schedule.Edges.{
  IsDaily, Passed, AllPassed, scan_local_days-none, scan_local_days-some,
}

-- Where a window opens or closes there is a boundary, of that day or of the day before.
window_boundary :
    (P : ℕ → Type 0) (w : ScheduleWindow) (x : ℕ)
    → IsDaily w
    → (on_day w (weekday (x / day_length)) ≡ true → P (x / day_length * day_length + w.end))
    → (on_day w (weekday ((x + 1) / day_length)) ≡ true
        → P ((x + 1) / day_length * day_length + w.start)
          × P ((x + 1) / day_length * day_length + w.end))
    → (in_window w x ≡ in_window w (x + 1)) ⊎ P (x + 1)
unfolding in_window
window_boundary P w x d before after = elim (Bool-cases (in_window w x)) [
  | inl inside ↦ elim (Bool-cases (in_window w (x + 1))) [
    | inl still ↦ inl (inside ∙ sym still)
    | inr out ↦ inr (closes inside out)
  ]
  | inr outside ↦ elim (Bool-cases (in_window w (x + 1))) [
    | inl now ↦ inr (opens outside now)
    | inr still ↦ inl (outside ∙ sym still)
  ]
]
  where
    opens : in_window w x ≡ false → in_window w (x + 1) ≡ true → P (x + 1)
    opens outside now =
        let on : on_day w (weekday ((x + 1) / day_length)) ≡ true = ground arith in
        elim (Bool-cases (w.start == (x + 1) % day_length)) [
          | inl edge ↦
              let e : (x + 1) / day_length * day_length + w.start ≡ x + 1 = ground arith in
              subst P e (after on).0
          | inr inner ↦
              let day : (x + 1) / day_length ≡ x / day_length = ground arith in
              let on' : on_day w (weekday (x / day_length)) ≡ true =
                subst (λ k. on_day w (weekday k) ≡ true) day on in
              absurd (ground arith)
        ]

    closes : in_window w x ≡ true → in_window w (x + 1) ≡ false → P (x + 1)
    closes inside out =
        let on : on_day w (weekday (x / day_length)) ≡ true = ground arith in
        elim (Bool-cases (w.end == x % day_length + 1)) [
          | inl edge ↦
              let e : x / day_length * day_length + w.end ≡ x + 1 = ground arith in
              subst P e (before on)
          | inr inner ↦
              let day : x / day_length ≡ (x + 1) / day_length = ground arith in
              let on' : on_day w (weekday ((x + 1) / day_length)) ≡ true =
                subst (λ k. on_day w (weekday k) ≡ true) day on in
              absurd (ground arith)
        ]

split_boundaries :
    (P : ℕ → Type 0) (w : ScheduleWindow) (ws : List ScheduleWindow) (day : ℕ)
    → All P (local_boundaries (w ∷ ws) day)
    → (on_day w (weekday day) ≡ true
        → P (day * day_length + w.start) × P (day * day_length + w.end))
      × All P (local_boundaries ws day)
unfolding local_boundaries
split_boundaries P w ws day h = elim (Bool-cases (on_day w (weekday day))) [
  | inl on ↦
      let h' : All P
          ((day * day_length + w.start) ∷ (day * day_length + w.end) ∷ local_boundaries ws day) =
        rw on at h in
      (λ _. (h'.0, h'.1.0), h'.1.1)
  | inr off ↦
      let h' : All P (local_boundaries ws day) = rw off at h in (λ on. absurd (ground arith), h')
]

any_boundary :
    (P : ℕ → Type 0) (ws : List ScheduleWindow) (x : ℕ)
    → All IsDaily ws
    → All P (local_boundaries ws (x / day_length))
    → All P (local_boundaries ws ((x + 1) / day_length))
    → (in_any ws x ≡ in_any ws (x + 1)) ⊎ P (x + 1)
unfolding in_any local_boundaries
any_boundary P [] x d p q = inl refl
any_boundary P (w ∷ ws) x d p q =
    let (p_head, p_tail) = split_boundaries P w ws (x / day_length) p in
    let (q_head, q_tail) = split_boundaries P w ws ((x + 1) / day_length) q in
    either (window_boundary P w x d.0 (λ on. (p_head on).1) q_head)
      (any_boundary P ws x d.1 p_tail q_tail)
  where
    either :
        (in_window w x ≡ in_window w (x + 1)) ⊎ P (x + 1)
        → (in_any ws x ≡ in_any ws (x + 1)) ⊎ P (x + 1)
        → (in_any (w ∷ ws) x ≡ in_any (w ∷ ws) (x + 1)) ⊎ P (x + 1)
    either (inr found) _ = inr found
    either (inl same) (inr found) = inr found
    either (inl same) (inl rest) = inl (λ i. same i || rest i)

-- As long as every boundary before `stop` keeps the state, so does every instant before `stop`.
steady :
    (w : ScheduleWindow) (ws : List ScheduleWindow) (local n stop k : ℕ)
    → All IsDaily (w ∷ ws)
    → AllPassed (w ∷ ws) local (active_local (w ∷ ws) local) stop n (local / day_length)
    → stop ≤ (local / day_length + n) * day_length
    → local + k < stop
    → active_local (w ∷ ws) (local + k) ≡ active_local (w ∷ ws) local
unfolding active_local
steady w ws local n stop zero d passed bound lt = ap (in_any (w ∷ ws)) (omega arith)
steady w ws local n stop (suc k) d passed bound lt =
    let x = local + k in
    let before = steady w ws local n stop k d passed bound (omega arith) in
    let P = Passed (w ∷ ws) local (active_local (w ∷ ws) local) stop in
    subst (λ y. active_local (w ∷ ws) y ≡ active_local (w ∷ ws) local) (omega arith)
      (keep x before (omega arith) (omega arith) (
        any_boundary P (w ∷ ws) x d (passed (x / day_length) (omega arith) (omega arith))
          (passed ((x + 1) / day_length) (omega arith) (omega arith))))
  where
    keep :
        (x : ℕ)
        → active_local (w ∷ ws) x ≡ active_local (w ∷ ws) local
        → local < x + 1
        → x + 1 < stop
        → (in_any (w ∷ ws) x ≡ in_any (w ∷ ws) (x + 1))
          ⊎ Passed (w ∷ ws) local (active_local (w ∷ ws) local) stop (x + 1)
        → active_local (w ∷ ws) (x + 1) ≡ active_local (w ∷ ws) local
    keep x before after early (inl same) = sym same ∙ before
    keep x before after early (inr passed) = passed after early

-- What a transition is, of a state over readings: the state is kept up to it, and another one there;
-- `none` says that the state is kept up to `limit`.
abbrev pub IsTransition : (ℕ → Bool) → ℕ → ℕ → Option ℕ → Type 0
IsTransition state from limit none = (v : ℕ) → from ≤ v → v < limit → state v ≡ state from
IsTransition state from limit (some u) =
    (from < u) × (state u ≢ state from) × ((v : ℕ) → from ≤ v → v < u → state v ≡ state from)

kept :
    (state : ℕ → Bool) (from stop : ℕ)
    → ((k : ℕ) → from + k < stop → state (from + k) ≡ state from)
    → (v : ℕ) → from ≤ v
    → v < stop
    → state v ≡ state from
kept state from stop h v le lt =
    let e : from + (v - from) ≡ v = omega arith in
    subst (λ y. state y ≡ state from) e (h (v - from) (omega arith))

differs : (a b : Bool) → same_state a b ≡ false → a ≢ b
unfolding same_state
differs true true h e = cc
differs true false h e = cc
differs false true h e = cc
differs false false h e = cc

pub next_local_lem :
    (ws : List ScheduleWindow) (local : ℕ)
    → All IsDaily ws
    → IsTransition
        (active_local ws)
        local
        ((local / day_length + 8) * day_length)
        (next_local ws local)
unfolding next_local
next_local_lem [] local d = λ v le lt. refl
next_local_lem (w ∷ ws) local d =
    let cur = active_local (w ∷ ws) local in
    let day = local / day_length in
    elim (Option-cases (scan_local_days 8 (w ∷ ws) local cur day)) [
      | inl nothing ↦
          let stop = (day + 8) * day_length in
          let passed = scan_local_days-none 8 (w ∷ ws) local cur day stop nothing in
          rw nothing (
            kept (active_local (w ∷ ws)) local stop
              (λ k lt. steady w ws local 8 stop k d passed (omega arith) lt))
      | inr (u, found) ↦
          let (after, flips, bound, passed) =
            scan_local_days-some 8 (w ∷ ws) local cur day u d found in
          rw found (
            after,
            differs (active_local (w ∷ ws) u) cur flips,
            kept (active_local (w ∷ ws)) local u
                (λ k lt. steady w ws local 8 u k d passed bound lt),
          )
    ]
