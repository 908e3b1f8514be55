-- ===== src/Clock.antt =====
-- internal/clock/fake.go: the deterministic clock of the tests. Every method holds the mutex, and each is one
-- step. A waiter is known by a number, which stands for its pointer; a waiter that has fired is in the
-- list no more. What is delivered is a list: a send on a waiter's channel, or a call of its callback. A
-- callback that calls the clock is a later step.
pub mod Once
use phantom_traffic.Prelude.{
  ℕ, suc, Bool, true, false, not, ◌&&◌, List, [], ◌∷◌, ◌++◌, if◌then◌else◌, ◌==◌,
}
use phantom_traffic.Prelude.Int.{ℤ, pos, pos_part, ◌+ℤ◌, leb_ℤ}
use phantom_traffic.Prelude.Clock.{Time, Duration}

pub record Waiter : Type 0 where
  pub id : ℕ
  pub deadline : ℤ
  pub has_callback : Bool
  pub is_stopped : Bool

pub record FakeClock : Type 0 where
  pub now : Time
  pub waiters : List Waiter
  pub next_id : ℕ

pub data Delivery : Type 0 where
  sent : ℕ → ℤ → Delivery
  called : ℕ → Delivery

unfoldable pub new_fake : Time → FakeClock
new_fake t = record { now = t; waiters = []; next_id = 0 }

-- fire, of a waiter that has neither fired nor been stopped.
unfoldable pub fire : Waiter → Delivery
fire w = if w.has_callback then called w.id else sent w.id w.deadline

-- addWaiter, with the call of a callback that is due at once.
unfoldable pub add_waiter : Duration → Bool → FakeClock → FakeClock × List Delivery
unfolding fire
add_waiter d has_callback c =
    let w : Waiter = record {
      id = c.next_id;
      deadline = pos c.now +ℤ d;
      has_callback = has_callback;
      is_stopped = false;
    } in
    if leb_ℤ d (pos 0)
    then (record c { next_id = suc c.next_id }, fire w ∷ [])
    else (record c { next_id = suc c.next_id; waiters = c.waiters ++ w ∷ [] }, [])

-- Whether the waiter with the number can still fire.
unfoldable pub is_pending : ℕ → List Waiter → Bool
is_pending id [] = false
is_pending id (w ∷ ws) =
    let rest = is_pending id ws in if (w.id == id) && not w.is_stopped then true else rest

unfoldable pub mark_stopped : ℕ → List Waiter → List Waiter
mark_stopped id [] = []
mark_stopped id (w ∷ ws) =
    let rest = mark_stopped id ws in
    if w.id == id then record w { is_stopped = true } ∷ rest else w ∷ rest

-- Timer.Stop; a Sleep whose context is canceled does the same and drops the result.
unfoldable pub stop : ℕ → FakeClock → FakeClock × Bool
unfolding is_pending mark_stopped
stop id c =
    if is_pending id c.waiters
    then (record c { waiters = mark_stopped id c.waiters }, true)
    else (c, false)

unfoldable pub is_due : Time → Waiter → Bool
is_due now w = leb_ℤ w.deadline (pos now)

unfoldable pub due_of : Time → List Waiter → List Waiter
unfolding is_due
due_of now [] = []
due_of now (w ∷ ws) =
    let rest = due_of now ws in if not w.is_stopped && is_due now w then w ∷ rest else rest

unfoldable pub rest_of : Time → List Waiter → List Waiter
unfolding is_due
rest_of now [] = []
rest_of now (w ∷ ws) =
    let rest = rest_of now ws in if not w.is_stopped && not (is_due now w) then w ∷ rest else rest

-- sort.SliceStable by deadline.
unfoldable pub insert : Waiter → List Waiter → List Waiter
insert w [] = w ∷ []
insert w (x ∷ xs) =
    let later = insert w xs in if leb_ℤ w.deadline x.deadline then w ∷ x ∷ xs else x ∷ later

unfoldable pub sort : List Waiter → List Waiter
unfolding insert
sort [] = []
sort (w ∷ ws) = insert w (sort ws)

-- The sends, which are made under the lock, and the calls, which are made after it.
unfoldable pub sends : List Waiter → List Delivery
sends [] = []
sends (w ∷ ws) = let rest = sends ws in if w.has_callback then rest else sent w.id w.deadline ∷ rest

unfoldable pub calls : List Waiter → List Delivery
calls [] = []
calls (w ∷ ws) = let rest = calls ws in if w.has_callback then called w.id ∷ rest else rest

unfoldable pub fire_due : FakeClock → FakeClock × List Delivery
unfolding due_of rest_of sort sends calls
fire_due c =
    let due = sort (due_of c.now c.waiters) in
    (record c { waiters = rest_of c.now c.waiters }, sends due ++ calls due)

unfoldable pub advance : Duration → FakeClock → FakeClock × List Delivery
unfolding fire_due
advance d c = fire_due (record c { now = pos_part (pos c.now +ℤ d) })

unfoldable pub set : Time → FakeClock → FakeClock × List Delivery
unfolding fire_due
set t c = fire_due (record c { now = t })

-- The calls of a test, in order, and all that they deliver.
pub data Call : Type 0 where
  adds : Duration → Bool → Call
  stops : ℕ → Call
  advances : Duration → Call
  sets : Time → Call

unfoldable pub apply : Call → FakeClock → FakeClock × List Delivery
unfolding add_waiter stop advance set
apply (adds d has_callback) c = add_waiter d has_callback c
apply (stops id) c = ((stop id c).0, [])
apply (advances d) c = advance d c
apply (sets t) c = set t c

unfoldable pub run : List Call → FakeClock → FakeClock × List Delivery
unfolding apply
run [] c = (c, [])
run (x ∷ xs) c = let (c', first) = apply x c in let (c'', rest) = run xs c' in (c'', first ++ rest)
