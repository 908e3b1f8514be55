-- ===== src/Schedule/Fixed.antt =====
-- internal/schedule/schedule.go: NextTransition at a location whose clocks never change, against the scan
-- of readings.
use phantom_traffic.Prelude.{
  ℕ, zero, suc, ◌+◌, ◌-◌, ◌*◌, ◌/◌, ◌≤◌, ◌≡◌, ◌∙◌, refl, sym, ap, subst, Bool, true, false, not,
  ◌&&◌, List, [], ◌∷◌, map, Option, none, some, inl, inr, arith, ltb, leb, All, Bool-cases,
  Option-cases,
}
use phantom_traffic.Prelude.Clock.{Time, IsFixed, day_length, weekday}
use phantom_traffic.Scenario.{Schedule, ScheduleWindow}
use phantom_traffic.Schedule.{
  on_day, active_local, active, insert, sort, boundaries, day_edges, same_state, scan_edges,
  add_days, scan_days, scan_from, next_transition, max_lookahead_days,
}
use phantom_traffic.Schedule.Local.{
  local_boundaries, local_edges, scan_local_edges, scan_local_days, next_local,
}
use phantom_traffic.Schedule.Edges.{IsDaily}
use phantom_traffic.Schedule.Flips.{IsTransition, next_local_lem}

-- The same comparisons, and so the same order, at a distance.
insert-shifted :
    (shift e : ℕ) (xs : List ℕ)
    → insert (e + shift) (map (λ x. x + shift) xs) ≡ map (λ x. x + shift) (insert e xs)
unfolding insert
insert-shifted shift e [] = refl
insert-shifted shift e (x ∷ xs) = elim (Bool-cases (leb e x)) [
  | inl le ↦ let le' : leb (e + shift) (x + shift) ≡ true = ground arith in rw (le, le') refl
  | inr gt ↦
      let gt' : leb (e + shift) (x + shift) ≡ false = ground arith in
      rw (gt, gt') (ap (λ ys. (x + shift) ∷ ys) (insert-shifted shift e xs))
]

sort-shifted :
    (shift : ℕ) (xs : List ℕ) → sort (map (λ x. x + shift) xs) ≡ map (λ x. x + shift) (sort xs)
unfolding sort
sort-shifted shift [] = refl
sort-shifted shift (x ∷ xs) =
    ap (insert (x + shift)) (sort-shifted shift xs) ∙ insert-shifted shift x (sort xs)

later_by : ℕ → Option Time → Option ℕ
later_by shift none = none
later_by shift (some u) = some (u + shift)

module _ (s : Schedule) (shift : ℕ) (fixed : IsFixed s.loc shift) where
  abbrev read : Time → ℕ
  read t = s.loc.reading t

  active_fixed : (t : Time) → active s t ≡ active_local s.windows (t + shift)
  unfolding active
  active_fixed t = ap (active_local s.windows) (fixed.0 t)

  boundaries_fixed :
      (ws : List ScheduleWindow) (day base : ℕ)
      → base + shift ≡ day * day_length
      → local_boundaries ws day ≡ map (λ x. x + shift) (boundaries s.loc ws base)
  unfolding local_boundaries boundaries
  boundaries_fixed [] day base e = refl
  boundaries_fixed (w ∷ ws) day base e =
      let same : day ≡ s.loc.reading base / day_length = omega (arith, fixed.0 base) in
      let rest = boundaries_fixed ws day base e in
      let start : day * day_length + w.start ≡ base + w.start + shift = omega arith in
      let end : day * day_length + w.end ≡ base + w.end + shift = omega arith in
      elim (Bool-cases (on_day w (weekday day))) [
        | inl on ↦
            let on' = subst (λ d. on_day w (weekday d) ≡ true) same on in
            rw (on, on') (λ i. start i ∷ end i ∷ rest i)
        | inr off ↦
            let off' = subst (λ d. on_day w (weekday d) ≡ false) same off in rw (off, off') rest
      ]

  scan_edges_fixed :
      (t : Time) (cur : Bool) (es : List Time)
      → scan_local_edges s.windows (t + shift) cur (map (λ x. x + shift) es)
        ≡ later_by shift (scan_edges s t cur es)
  unfolding scan_local_edges scan_edges later_by
  scan_edges_fixed t cur [] = refl
  scan_edges_fixed t cur (e ∷ es) =
      let rest = scan_edges_fixed t cur es in
      let order : ltb (t + shift) (e + shift) ≡ ltb t e = ground arith in
      let state = sym (active_fixed e) in
      elim (Bool-cases (ltb t e && not (same_state (active s e) cur))) [
        | inl flips ↦
            let flips' : ltb (t + shift) (e + shift)
                  && not (same_state (active_local s.windows (e + shift)) cur)
                ≡ true =
              (λ i. order i && not (same_state (state i) cur)) ∙ flips in
            rw (flips, flips') refl
        | inr stays ↦
            let stays' : ltb (t + shift) (e + shift)
                  && not (same_state (active_local s.windows (e + shift)) cur)
                ≡ false =
              (λ i. order i && not (same_state (state i) cur)) ∙ stays in
            rw (stays, stays') rest
      ]

  later_by-cases :
      (o : Option Time) (x y : Option Time)
      → later_by shift (elim o [ none ↦ x | some u ↦ some u ])
        ≡ elim (later_by shift o) [ none ↦ later_by shift x | some u ↦ some u ]
  unfolding later_by
  later_by-cases none x y = refl
  later_by-cases (some u) x y = refl

  scan_days_fixed :
      (n : ℕ) (t : Time) (cur : Bool) (midnight day first : ℕ)
      → midnight + shift ≡ first * day_length
      → scan_local_days n s.windows (t + shift) cur (first + day)
        ≡ later_by shift (scan_days n s t cur midnight day)
  unfolding scan_local_days scan_days later_by local_edges day_edges add_days
  scan_days_fixed zero t cur midnight day first e = refl
  scan_days_fixed (suc n) t cur midnight day first e =
      let base = add_days s.loc midnight day in
      let edges = edges_fixed midnight day first e in
      let rest = scan_days_fixed n t cur midnight (day + 1) first e in
      let next : first + (day + 1) ≡ first + day + 1 = omega arith in
      let found =
        ap (scan_local_edges s.windows (t + shift) cur) edges
        ∙ scan_edges_fixed t cur (day_edges s.loc s.windows base) in
      elim (Option-cases (scan_edges s t cur (day_edges s.loc s.windows base))) [
        | inl nothing ↦
            let nothing' = found ∙ ap (later_by shift) nothing in
            rw (nothing', nothing, scan_local_days, scan_days)
              (subst
                (λ d.
                  scan_local_days n s.windows (t + shift) cur d
                  ≡ later_by shift (scan_days n s t cur midnight (day + 1)))
                next rest)
        | inr (u, some') ↦
            let some'' = found ∙ ap (later_by shift) some' in
            rw (some'', some', scan_local_days, scan_days) refl
      ]
    where
      edges_fixed :
          (midnight day first : ℕ)
          → midnight + shift ≡ first * day_length
          → local_edges s.windows (first + day)
            ≡ map (λ x. x + shift) (day_edges s.loc s.windows (add_days s.loc midnight day))
      edges_fixed midnight day first e =
          let reading = fixed.0 midnight in
          let back = fixed.1 (s.loc.reading midnight + day * day_length) (omega (arith, reading)) in
          ap sort (
            boundaries_fixed s.windows (first + day) (add_days s.loc midnight day)
              (omega (arith, back, reading)))
          ∙ sort-shifted shift (boundaries s.loc s.windows (add_days s.loc midnight day))

  scan_fixed :
      (t : Time)
      → day_length ≤ t
      → scan_local_days max_lookahead_days s.windows
          (t + shift)
          (active_local s.windows (t + shift))
          ((t + shift) / day_length)
        ≡ later_by shift (
            scan_days max_lookahead_days s t
              (active s t)
              (s.loc.date (s.loc.reading t / day_length * day_length))
              0)
  scan_fixed t h =
      let reading = fixed.0 t in
      let midnight = s.loc.date (s.loc.reading t / day_length * day_length) in
      let first = (t + shift) / day_length in
      let back = fixed.1 (s.loc.reading t / day_length * day_length) (omega (arith, reading)) in
      let begins : midnight + shift ≡ first * day_length = omega (arith, back, reading) in
      let today : first + 0 ≡ first = omega arith in
      let state = sym (active_fixed t) in
      let starts = sym today in
      (λ i. scan_local_days max_lookahead_days s.windows (t + shift) (state i) (starts i))
      ∙ scan_days_fixed max_lookahead_days t (active s t) midnight 0 first begins

  next_transition_fixed :
      (t : Time)
      → day_length ≤ t
      → next_local s.windows (t + shift) ≡ later_by shift (next_transition s t)
  unfolding next_transition scan_from next_local later_by
  next_transition_fixed t h = from s.windows refl
    where
      from :
          (ws : List ScheduleWindow)
          → s.windows ≡ ws
          → next_local ws (t + shift) ≡ later_by shift (scan_from ws s t)
      from [] e = refl
      from (w ∷ ws) e =
          subst
            (λ vs.
              scan_local_days max_lookahead_days vs (t + shift) (active_local vs (t + shift))
                ((t + shift) / day_length)
              ≡ later_by shift (
                  scan_days max_lookahead_days s t (active s t)
                    (s.loc.date (s.loc.reading t / day_length * day_length)) 0))
            e (scan_fixed t h)

  -- Where the clocks never change, the next transition of a schedule is one of Active.
  pub next_transition-IsTransition :
      (t : Time)
      → All IsDaily s.windows
      → day_length ≤ t
      → IsTransition
          (active s)
          t
          (((t + shift) / day_length + 8) * day_length - shift)
          (next_transition s t)
  unfolding later_by
  next_transition-IsTransition t d h = moved (next_transition s t) (
      subst
        (IsTransition (active_local s.windows) (t + shift)
          (((t + shift) / day_length + 8) * day_length))
        (next_transition_fixed t h) (next_local_lem s.windows (t + shift) d))
    where
      moved :
          (o : Option Time)
          → IsTransition
              (active_local s.windows)
              (t + shift)
              (((t + shift) / day_length + 8) * day_length)
              (later_by shift o)
          → IsTransition (active s) t (((t + shift) / day_length + 8) * day_length - shift) o
      moved none k = λ v le lt.
          active_fixed v ∙ k (v + shift) (omega arith) (omega arith) ∙ sym (active_fixed t)
      moved (some u) (after, flips, steady) = (
        omega arith,
        λ e. flips (sym (active_fixed u) ∙ e ∙ active_fixed t),
        λ v le lt.
            active_fixed v ∙ steady (v + shift) (omega arith) (omega arith) ∙ sym (active_fixed t),
      )
