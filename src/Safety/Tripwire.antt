-- ===== src/Safety/Tripwire.antt =====
-- internal/safety/tripwire.go: the latch that no call resets. The count is an atomic int64.
pub mod Budget
use phantom_traffic.Prelude.{String, Bool, true, false, ◌&&◌, if◌then◌else◌}
use phantom_traffic.Prelude.Int.{ℤ, pos, ◌+ℤ◌, int64, ltb_ℤ}

pub record Tripwire : Type 0 where
  pub budget : ℤ
  pub count : ℤ
  pub tripped : Bool
  pub reason : String

unfoldable pub new_tripwire : ℤ → Tripwire
new_tripwire budget = record { budget = budget; count = pos 0; tripped = false; reason = "" }

-- CompareAndSwap(false, true): only the first caller writes its reason.
unfoldable pub trip : String → Tripwire → Tripwire
trip reason t = if t.tripped then t else record t { tripped = true; reason = reason }

-- The latch is read after the trip.
unfoldable pub count_request : Tripwire → Tripwire × Bool
unfolding trip
count_request t =
    let n = int64 (t.count +ℤ pos 1) in
    let t' = record t { count = n } in
    let t'' =
      if ltb_ℤ (pos 0) t.budget && ltb_ℤ t.budget n
      then trip "total request budget exhausted" t'
      else t' in
    (t'', t''.tripped)
