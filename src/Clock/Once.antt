-- ===== src/Clock/Once.antt =====
-- internal/clock/fake.go: how often a waiter is delivered, over any calls.
use phantom_traffic.Prelude.{
  ℕ, ◌+◌, ◌≤◌, ◌<◌, ◌≡◌, ◌∙◌, refl, ap, Bool, true, false, not, ◌&&◌, List, [], ◌∷◌, ◌++◌, arith,
  if◌then◌else◌, ◌==◌, ltb, Bool-cases, inl, inr,
}
use phantom_traffic.Prelude.Int.{pos, pos_part, ◌+ℤ◌}
use phantom_traffic.Prelude.Clock.{Time, Duration}
use phantom_traffic.Clock.{
  Waiter, FakeClock, Delivery, sent, called, new_fake, fire, add_waiter, is_pending, mark_stopped,
  stop, due_of, rest_of, insert, sort, sends, calls, fire_due, advance, set, Call, adds, stops,
  advances, sets, apply, run,
}

abbrev pub number : Delivery → ℕ
number (sent id t) = id
number (called id) = id

-- How often a waiter is delivered.
abbrev pub count : ℕ → List Delivery → ℕ
count id [] = 0
count id (d ∷ ds) = (if number d == id then 1 else 0) + count id ds

-- How many waiters with the number can still fire.
abbrev pub pending : ℕ → List Waiter → ℕ
pending id [] = 0
pending id (w ∷ ws) = (if (w.id == id) && not w.is_stopped then 1 else 0) + pending id ws

-- How many waiters have the number.
abbrev having : ℕ → List Waiter → ℕ
having id [] = 0
having id (w ∷ ws) = (if w.id == id then 1 else 0) + having id ws

count-append : (id : ℕ) (xs ys : List Delivery) → count id (xs ++ ys) ≡ count id xs + count id ys
count-append id [] ys = omega arith
count-append id (x ∷ xs) ys = ground (arith, count-append id xs ys)

pending-append :
    (id : ℕ) (xs ys : List Waiter) → pending id (xs ++ ys) ≡ pending id xs + pending id ys
pending-append id [] ys = omega arith
pending-append id (x ∷ xs) ys = ground (arith, pending-append id xs ys)

having-insert :
    (id : ℕ) (w : Waiter) (ws : List Waiter) → having id (insert w ws) ≡ having id (w ∷ ws)
unfolding insert
having-insert id w [] = refl
having-insert id w (x ∷ xs) = ground (arith, having-insert id w xs)

having-sort : (id : ℕ) (ws : List Waiter) → having id (sort ws) ≡ having id ws
unfolding sort
having-sort id [] = refl
having-sort id (w ∷ ws) =
    having-insert id w (sort ws) ∙ ap (λ n. (if w.id == id then 1 else 0) + n) (having-sort id ws)

count-delivered :
    (id : ℕ) (ws : List Waiter) → count id (sends ws) + count id (calls ws) ≡ having id ws
unfolding sends calls
count-delivered id [] = refl
count-delivered id (w ∷ ws) = ground (arith, count-delivered id ws)

pending-due_of :
    (id : ℕ) (now : Time) (ws : List Waiter)
    → having id (due_of now ws) + pending id (rest_of now ws) ≡ pending id ws
unfolding due_of rest_of
pending-due_of id now [] = refl
pending-due_of id now (w ∷ ws) = ground (arith, pending-due_of id now ws)

fire_due_count :
    (id : ℕ) (c : FakeClock)
    → (count id (fire_due c).1 + pending id (fire_due c).0.waiters ≡ pending id c.waiters)
      × ((fire_due c).0.next_id ≡ c.next_id)
unfolding fire_due
fire_due_count id c =
    let due = sort (due_of c.now c.waiters) in
    let e1 = count-append id (sends due) (calls due) in
    let e2 = count-delivered id due in
    let e3 = having-sort id (due_of c.now c.waiters) in
    let e4 = pending-due_of id c.now c.waiters in (omega arith, refl)

pending-mark_stopped :
    (id j : ℕ) (ws : List Waiter)
    → (pending id (mark_stopped j ws) ≤ pending id ws) × (pending j (mark_stopped j ws) ≡ 0)
unfolding mark_stopped
pending-mark_stopped id j [] = (omega arith, refl)
pending-mark_stopped id j (w ∷ ws) =
    let (less, none') = pending-mark_stopped id j ws in (ground arith, ground arith)

is_pending-pending : (id : ℕ) (ws : List Waiter) → is_pending id ws ≡ true → 0 < pending id ws
unfolding is_pending
is_pending-pending id [] h = absurd (cc)
is_pending-pending id (w ∷ ws) h = ground (arith, is_pending-pending id ws)

-- How often the waiter with the number may still be delivered: it is pending, or not yet there.
abbrev chances : ℕ → FakeClock → ℕ
chances id c = pending id c.waiters + (if ltb id c.next_id then 0 else 1)

add_waiter-chances :
    (id : ℕ) (d : Duration) (b : Bool) (c : FakeClock)
    → count id (add_waiter d b c).1 + chances id (add_waiter d b c).0 ≤ chances id c
unfolding add_waiter fire
add_waiter-chances id d b c =
    let w : Waiter = record {
      id = c.next_id;
      deadline = pos c.now +ℤ d;
      has_callback = b;
      is_stopped = false;
    } in
    let e = pending-append id c.waiters (w ∷ []) in ground arith

stop-chances : (id j : ℕ) (c : FakeClock) → chances id (stop j c).0 ≤ chances id c
unfolding stop
stop-chances id j c = let (less, none') = pending-mark_stopped id j c.waiters in ground arith

apply-chances :
    (id : ℕ) (x : Call) (c : FakeClock)
    → count id (apply x c).1 + chances id (apply x c).0 ≤ chances id c
unfolding apply advance set
apply-chances id (adds d b) c = add_waiter-chances id d b c
apply-chances id (stops j) c = omega (arith, stop-chances id j c)
apply-chances id (advances d) c =
    let (e, same) = fire_due_count id (record c { now = pos_part (pos c.now +ℤ d) }) in
    rw same (omega arith)
apply-chances id (sets t) c =
    let (e, same) = fire_due_count id (record c { now = t }) in rw same (omega arith)

run-chances :
    (id : ℕ) (xs : List Call) (c : FakeClock)
    → count id (run xs c).1 + chances id (run xs c).0 ≤ chances id c
unfolding run
run-chances id [] c = omega arith
run-chances id (x ∷ xs) c =
    let first = apply-chances id x c in
    let rest = run-chances id xs (apply x c).0 in
    let sum = count-append id (apply x c).1 (run xs (apply x c).0).1 in omega arith

stop-chances_once :
    (id : ℕ) (c : FakeClock)
    → chances id c ≤ 1
    → (stop id c).1 ≡ true
    → (chances id c ≡ 1) × (chances id (stop id c).0 ≡ 0)
unfolding stop
stop-chances_once id c b h = elim (Bool-cases (is_pending id c.waiters)) [
  | inl can ↦
      let some' = is_pending-pending id c.waiters can in
      let (less, none') = pending-mark_stopped id id c.waiters in
      (ground arith, rw can (ground arith))
  | inr gone ↦ absurd (ground arith)
]

-- Whatever timers, callbacks and sleeps are registered on a new clock, stopped and made due by Advance and
-- Set, in whatever order, none is delivered twice; and one for which Stop returns true is not delivered at
-- all, neither before the Stop nor after it.
pub run_once :
    (t : Time) (before after : List Call) (id : ℕ)
    → let (c, log) = run before (new_fake t) in
      let (c', later) = run after (stop id c).0 in
      (count id (log ++ later) ≤ 1) × ((stop id c).1 ≡ true → count id (log ++ later) ≡ 0)
unfolding new_fake
run_once t before after id =
    let (c, log) = run before (new_fake t) in
    let later = (run after (stop id c).0).1 in
    let first = run-chances id before (new_fake t) in
    let fresh = fresh_chances t in
    let second = run-chances id after (stop id c).0 in
    let stopped = stop-chances id id c in
    let sum = count-append id log later in
    (omega arith, λ h. let (one, none') = stop-chances_once id c (omega arith) h in omega arith)
  where
    fresh_chances : (t : Time) → chances id (new_fake t) ≤ 1
    fresh_chances t = ground arith
