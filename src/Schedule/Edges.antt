-- ===== src/Schedule/Edges.antt =====
-- internal/schedule/schedule.go, dayEdges and the scan: which local_boundaries the scan passes over.
use phantom_traffic.Prelude.{
  ℕ, zero, suc, ◌+◌, ◌*◌, ◌≤◌, ◌<◌, ◌≡◌, refl, subst, Bool, true, false, not, ◌&&◌, List, [], ◌∷◌,
  none, some, inl, inr, arith, ltb, leb, ◌==◌, All, Bool-cases, Option-cases,
}
use phantom_traffic.Prelude.Clock.{day_length, weekday}
use phantom_traffic.Scenario.{ScheduleWindow}
use phantom_traffic.Schedule.{on_day, active_local, insert, sort, same_state}
use phantom_traffic.Schedule.Local.{
  local_boundaries, local_edges, scan_local_edges, scan_local_days,
}

abbrev pub IsSorted : List ℕ → Type 0
IsSorted [] = Unit
IsSorted (x ∷ xs) = All (λ y. x ≤ y) xs × IsSorted xs

module _ (P : ℕ → Type 0) where
  All-insert : (e : ℕ) (xs : List ℕ) → P e → All P xs → All P (insert e xs)
  unfolding insert
  All-insert e [] p h = (p, tt)
  All-insert e (x ∷ xs) p h = elim (Bool-cases (leb e x)) [
    | inl le ↦ rw le (p, h)
    | inr gt ↦ rw gt (h.0, All-insert e xs p h.1)
  ]

  pub All-sort : (xs : List ℕ) → All P xs → All P (sort xs)
  unfolding sort
  All-sort [] h = tt
  All-sort (x ∷ xs) h = All-insert x (sort xs) h.0 (All-sort xs h.1)

  insert-All : (e : ℕ) (xs : List ℕ) → All P (insert e xs) → P e × All P xs
  unfolding insert
  insert-All e [] h = h
  insert-All e (x ∷ xs) h = elim (Bool-cases (leb e x)) [
    | inl le ↦ let h' : All P (e ∷ x ∷ xs) = rw le at h in h'
    | inr gt ↦
        let h' : All P (x ∷ insert e xs) = rw gt at h in
        let (p, rest) = insert-All e xs h'.1 in (p, (h'.0, rest))
  ]

  pub sort-All : (xs : List ℕ) → All P (sort xs) → All P xs
  unfolding sort
  sort-All [] h = tt
  sort-All (x ∷ xs) h = let (p, rest) = insert-All x (sort xs) h in (p, sort-All xs rest)

pub All-mono : (P Q : ℕ → Type 0) (xs : List ℕ) → ((x : ℕ) → P x → Q x) → All P xs → All Q xs
All-mono P Q [] f h = tt
All-mono P Q (x ∷ xs) f h = (f x h.0, All-mono P Q xs f h.1)

insert-IsSorted : (e : ℕ) (xs : List ℕ) → IsSorted xs → IsSorted (insert e xs)
unfolding insert
insert-IsSorted e [] h = (tt, tt)
insert-IsSorted e (x ∷ xs) h = elim (Bool-cases (leb e x)) [
  | inl le ↦
      let below : e ≤ x = ground arith in
      rw le ((below, All-mono (λ y. x ≤ y) (λ y. e ≤ y) xs (λ y q. omega arith) h.0), h)
  | inr gt ↦
      let below : x ≤ e = ground arith in
      rw gt (All-insert (λ y. x ≤ y) e xs below h.0, insert-IsSorted e xs h.1)
]

pub sort-IsSorted : (xs : List ℕ) → IsSorted (sort xs)
unfolding sort
sort-IsSorted [] = tt
sort-IsSorted (x ∷ xs) = insert-IsSorted x (sort xs) (sort-IsSorted xs)

-- An edge after `local` and before `stop` does not change the state.
abbrev pub Passed : List ScheduleWindow → ℕ → Bool → ℕ → ℕ → Type 0
Passed ws local cur stop e = local < e → e < stop → active_local ws e ≡ cur

pub same_state-eq : (a b : Bool) → same_state a b ≡ true → a ≡ b
unfolding same_state
same_state-eq true true h = refl
same_state-eq true false h = cc
same_state-eq false true h = cc
same_state-eq false false h = refl

abbrev flips_at : List ScheduleWindow → ℕ → Bool → ℕ → Bool
flips_at ws local cur e = ltb local e && not (same_state (active_local ws e) cur)

not_flips :
    (ws : List ScheduleWindow) (local : ℕ) (cur : Bool) (e : ℕ)
    → flips_at ws local cur e ≡ false
    → local < e
    → active_local ws e ≡ cur
not_flips ws local cur e h lt =
    let same : same_state (active_local ws e) cur ≡ true = ground arith in
    same_state-eq (active_local ws e) cur same

pub scan_local_edges-none :
    (ws : List ScheduleWindow) (local : ℕ) (cur : Bool) (stop : ℕ) (es : List ℕ)
    → scan_local_edges ws local cur es ≡ none
    → All (Passed ws local cur stop) es
unfolding scan_local_edges
scan_local_edges-none ws local cur stop [] h = tt
scan_local_edges-none ws local cur stop (e ∷ es) h = elim (Bool-cases (flips_at ws local cur e)) [
  | inl yes' ↦ absurd (ground arith)
  | inr stays ↦ (
    λ lt _. not_flips ws local cur e stays lt,
    scan_local_edges-none ws local cur stop es (rw (stays, scan_local_edges) at h),
  )
]

pub scan_local_edges-some :
    (ws : List ScheduleWindow) (local : ℕ) (cur : Bool) (u : ℕ) (es : List ℕ)
    → IsSorted es
    → scan_local_edges ws local cur es ≡ some u
    → (local < u) × (same_state (active_local ws u) cur ≡ false) × All (Passed ws local cur u) es
unfolding scan_local_edges
scan_local_edges-some ws local cur u [] s h = cc
scan_local_edges-some ws local cur u (e ∷ es) s h = elim (Bool-cases (flips_at ws local cur e)) [
  | inl flips ↦
      let found : e ≡ u = ground arith in
      let after : local < e = ground arith in
      let differs : same_state (active_local ws e) cur ≡ false = ground arith in
      (
        omega arith,
        subst (λ x. same_state (active_local ws x) cur ≡ false) found differs,
        (
          λ _ lt. absurd (omega arith),
          All-mono (λ y. e ≤ y) (Passed ws local cur u) es (λ y le _ lt. absurd (omega arith)) s.0,
        ),
      )
  | inr stays ↦
      let (after, differs, passed) = scan_local_edges-some ws local cur u es s.1 (rw stays at h) in
      (after, differs, (λ lt _. not_flips ws local cur e stays lt, passed))
]

scan_local_edges-All :
    (P : ℕ → Type 0) (ws : List ScheduleWindow) (local : ℕ) (cur : Bool) (u : ℕ) (es : List ℕ)
    → All P es
    → scan_local_edges ws local cur es ≡ some u
    → P u
unfolding scan_local_edges
scan_local_edges-All P ws local cur u [] p h = cc
scan_local_edges-All P ws local cur u (e ∷ es) p h = elim (Bool-cases (flips_at ws local cur e)) [
  | inl flips ↦ let found : e ≡ u = ground arith in subst P found p.0
  | inr stays ↦ scan_local_edges-All P ws local cur u es p.1 (rw stays at h)
]

-- The windows lie within a day.
abbrev pub IsDaily : ScheduleWindow → Type 0
IsDaily w = (w.start ≤ day_length) × (w.end ≤ day_length)

abbrev OfDay : ℕ → ℕ → Type 0
OfDay day e = (day * day_length ≤ e) × (e ≤ (day + 1) * day_length)

local_boundaries-OfDay :
    (ws : List ScheduleWindow) (day : ℕ)
    → All IsDaily ws
    → All (OfDay day) (local_boundaries ws day)
unfolding local_boundaries
local_boundaries-OfDay [] day h = tt
local_boundaries-OfDay (w ∷ ws) day h = elim (Bool-cases (on_day w (weekday day))) [
  | inl on ↦
      rw on (
        (omega arith, omega arith),
        ((omega arith, omega arith), local_boundaries-OfDay ws day h.1),
      )
  | inr off ↦ rw off (local_boundaries-OfDay ws day h.1)
]

abbrev pub AllPassed : List ScheduleWindow → ℕ → Bool → ℕ → ℕ → ℕ → Type 0
AllPassed ws local cur stop n day =
    (j : ℕ) → day ≤ j → j < day + n → All (Passed ws local cur stop) (local_boundaries ws j)

first_day :
    (P : ℕ → Type 0) (day n : ℕ)
    → P day
    → ((j : ℕ) → day + 1 ≤ j → j < day + 1 + n → P j)
    → (j : ℕ) → day ≤ j
    → j < day + suc n
    → P j
first_day P day n p rest j lo hi = elim (Bool-cases (j == day)) [
  | inl same ↦ let e : day ≡ j = ground arith in subst P e p
  | inr later ↦ rest j (ground arith) (omega arith)
]

-- The days that the scan passes over, and the edge that it stops at.
pub scan_local_days-none :
    (n : ℕ) (ws : List ScheduleWindow) (local : ℕ) (cur : Bool) (day stop : ℕ)
    → scan_local_days n ws local cur day ≡ none
    → AllPassed ws local cur stop n day
unfolding scan_local_days
scan_local_days-none zero ws local cur day stop h = λ j lo hi. absurd (omega arith)
scan_local_days-none (suc n) ws local cur day stop h =
    elim (Option-cases (scan_local_edges ws local cur (local_edges ws day))) [
      | inr (u, found) ↦ absurd (let bad : some u ≡ none = rw (found, scan_local_days) at h in cc)
      | inl nothing ↦
          first_day (λ j. All (Passed ws local cur stop) (local_boundaries ws j)) day n
            (sort-All (Passed ws local cur stop) (local_boundaries ws day)
              (scan_local_edges-none ws local cur stop (local_edges ws day) nothing))
            (scan_local_days-none n ws local cur (day + 1) stop
              (rw (nothing, scan_local_days) at h))
    ]

abbrev Stops : ℕ → List ScheduleWindow → ℕ → Bool → ℕ → ℕ → Type 0
Stops n ws local cur day u =
    (local < u)
    × (same_state (active_local ws u) cur ≡ false)
    × (u ≤ (day + n) * day_length)
    × AllPassed ws local cur u n day

pub scan_local_days-some :
    (n : ℕ) (ws : List ScheduleWindow) (local : ℕ) (cur : Bool) (day u : ℕ)
    → All IsDaily ws
    → scan_local_days n ws local cur day ≡ some u
    → Stops n ws local cur day u
unfolding scan_local_days
scan_local_days-some zero ws local cur day u f h = cc
scan_local_days-some (suc n) ws local cur day u f h =
    elim (Option-cases (scan_local_edges ws local cur (local_edges ws day))) [
      | inr (v, found) ↦
          let same : some v ≡ some u = rw (found, scan_local_days) at h in here (cc (found, same))
      | inl nothing ↦
          let (after, differs, bound, passed) =
            scan_local_days-some n ws local cur (day + 1) u f
              (rw (nothing, scan_local_days) at h) in
          (
            after,
            differs,
            omega arith,
            first_day (λ j. All (Passed ws local cur u) (local_boundaries ws j)) day n
                (sort-All (Passed ws local cur u) (local_boundaries ws day)
                  (scan_local_edges-none ws local cur u (local_edges ws day) nothing))
                passed,
          )
    ]
  where
    here :
        scan_local_edges ws local cur (local_edges ws day) ≡ some u
        → Stops (suc n) ws local cur day u
    here found =
        let (after, differs, passed) =
          scan_local_edges-some ws local cur u (local_edges ws day)
            (sort-IsSorted (local_boundaries ws day)) found in
        let of_day =
          scan_local_edges-All (OfDay day) ws local cur u (local_edges ws day)
            (All-sort (OfDay day) (local_boundaries ws day) (local_boundaries-OfDay ws day f))
            found in
        (
          after,
          differs,
          omega arith,
          first_day (λ j. All (Passed ws local cur u) (local_boundaries ws j)) day n
              (sort-All (Passed ws local cur u) (local_boundaries ws day) passed)
              (λ j lo hi.
                All-mono (OfDay j) (Passed ws local cur u) (local_boundaries ws j)
                  (λ e range _ lt. absurd (omega arith)) (local_boundaries-OfDay ws j f)),
        )
