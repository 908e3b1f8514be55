-- ===== src/Safety/Tripwire/Budget.antt =====
-- The latch over sequences of calls.
use phantom_traffic.Prelude.{
  ℕ, zero, suc, ◌+◌, ◌^◌, ◌<◌, ◌≡◌, refl, String, Bool, true, ◌&&◌, List, [], ◌∷◌, arith, ◌∙◌,
}
use phantom_traffic.Prelude.Int.{ℤ, pos, ◌+ℤ◌, int64, ltb_ℤ}
use phantom_traffic.Safety.Tripwire.{Tripwire, new_tripwire, trip, count_request}

pub data Call : Type 0 where
  counts : Call
  trips : String → Call

unfoldable pub apply : Call → Tripwire → Tripwire
apply counts t = (count_request t).0
apply (trips reason) t = trip reason t

unfoldable pub apply_all : List Call → Tripwire → Tripwire
apply_all [] t = t
apply_all (c ∷ cs) t = apply_all cs (apply c t)

apply_latched :
    (c : Call) (t : Tripwire)
    → t.tripped ≡ true
    → ((apply c t).tripped ≡ true) × ((apply c t).reason ≡ t.reason)
unfolding apply trip count_request
apply_latched counts t h = ground arith
apply_latched (trips reason) t h = ground arith

-- Once tripped, no sequence of calls resets the tripwire or replaces its reason.
pub apply_all_latched :
    (cs : List Call) (t : Tripwire)
    → t.tripped ≡ true
    → ((apply_all cs t).tripped ≡ true) × ((apply_all cs t).reason ≡ t.reason)
unfolding apply_all
apply_all_latched [] t h = (h, refl)
apply_all_latched (c ∷ cs) t h =
    let (still, same) = apply_latched c t h in
    let (latched, kept) = apply_all_latched cs (apply c t) still in (latched, kept ∙ same)

-- `n` calls of CountRequest.
unfoldable pub count_all : ℕ → Tripwire → Tripwire
count_all zero t = t
count_all (suc n) t = count_all n (count_request t).0

abbrev over : ℤ → ℕ → Bool
over budget c = ltb_ℤ (pos 0) budget && ltb_ℤ budget (pos c)

one_count :
    (c : ℕ) (t : Tripwire)
    → t.count ≡ pos c
    → c + 1 < 2 ^ 63
    → t.tripped ≡ over t.budget c
    → ((count_request t).0.count ≡ pos (c + 1))
      × ((count_request t).0.budget ≡ t.budget)
      × ((count_request t).0.tripped ≡ over t.budget (c + 1))
      × ((count_request t).1 ≡ over t.budget (c + 1))
unfolding count_request trip int64 ◌+ℤ◌
one_count c t e k h = ground arith

count_all-over :
    (n c : ℕ) (t : Tripwire)
    → t.count ≡ pos c
    → c + n < 2 ^ 63
    → t.tripped ≡ over t.budget c
    → (count_all n t).tripped ≡ over t.budget (c + n)
unfolding count_all
count_all-over zero c t e k h = ground arith
count_all-over (suc n) c t e k h =
    let (e', same, h', _) = one_count c t e (omega arith) h in
    let rest = count_all-over n (c + 1) (count_request t).0 e' (omega arith) (rw same h') in
    ground (arith, rest, same)

-- A new tripwire with a budget is tripped after `n` requests, fewer than 2^63, exactly if the
-- budget is positive and `n` exceeds it; a budget that is not positive never trips it.
pub count_all-new_tripwire :
    (budget : ℤ) (n : ℕ)
    → n < 2 ^ 63
    → (count_all n (new_tripwire budget)).tripped ≡ (ltb_ℤ (pos 0) budget && ltb_ℤ budget (pos n))
unfolding new_tripwire
count_all-new_tripwire budget n k = ground (arith, count_all-over n 0 (new_tripwire budget))
