-- ===== src/Engine/Semaphore/Drain.antt =====
-- The permits over any interleaving of attempts, releases and resizes.
use phantom_traffic.Prelude.{◌-◌, ◌^◌, ◌≡◌, ◌↔◌, List, [], ◌∷◌, Option, none, arith, All}
use phantom_traffic.Prelude.Int.{ℤ, pos, ◌+ℤ◌, ◌-ℤ◌, int64, ◌≤ℤ◌, ◌<ℤ◌}
use phantom_traffic.Prelude.Context.{CtxErr, returns}
use phantom_traffic.Engine.Semaphore.{Semaphore, try_acquire, release, set_limit}

pub data Call : Type 0 where
  acquires : Option CtxErr → Call
  releases : Call
  resizes : ℤ → Call

unfoldable pub apply : Call → Semaphore → Semaphore
apply (acquires ctx) s = (try_acquire ctx s).0
apply releases s = release s
apply (resizes n) s = set_limit n s

unfoldable pub apply_all : List Call → Semaphore → Semaphore
apply_all [] s = s
apply_all (c ∷ cs) s = apply_all cs (apply c s)

-- Every limit that is set is at most `top`.
abbrev pub Limits : ℤ → Call → Type 0
Limits top (resizes n) = n ≤ℤ top
Limits top _ = Unit {0}

pub record Inv (top : ℤ) (s : Semaphore) : Type 0 where
  pub held_nonneg : pos 0 ≤ℤ s.held
  pub held_top : s.held ≤ℤ top
  pub limit_top : s.limit ≤ℤ top

apply-Inv :
    (top : ℤ) (c : Call) (s : Semaphore)
    → pos 0 ≤ℤ top
    → top <ℤ pos (2 ^ 63)
    → Limits top c
    → Inv top s
    → Inv top (apply c s)
unfolding apply try_acquire release set_limit int64 ◌+ℤ◌ ◌-ℤ◌
apply-Inv top (acquires ctx) s t b k v = ground arith
apply-Inv top releases s t b k v = ground arith
apply-Inv top (resizes n) s t b k v = ground arith

-- Whatever the interleaving, no more permits are held than the largest limit that was ever set,
-- and never fewer than none.
pub permits_bounded :
    (top : ℤ) (cs : List Call) (s : Semaphore)
    → pos 0 ≤ℤ top
    → top <ℤ pos (2 ^ 63)
    → All (Limits top) cs
    → Inv top s
    → Inv top (apply_all cs s)
unfolding apply_all
permits_bounded top [] s t b k v = v
permits_bounded top (c ∷ cs) s t b k v =
    permits_bounded top cs (apply c s) t b k.1 (apply-Inv top c s t b k.0 v)

-- Lowering the limit below what is held kills nothing and admits nothing: the holders keep their
-- permits, an attempt succeeds exactly while fewer than the limit are held and then takes one, it
-- changes nothing otherwise, and a release of a permit that is held lowers the number by one.
pub set_limit_drains :
    (n : ℤ) (ctx : Option CtxErr) (s : Semaphore)
    → pos 0 ≤ℤ s.held
    → s.held <ℤ pos (2 ^ 63 - 1)
    → let s' = set_limit n s in
      (s'.held ≡ s.held)
      × (((try_acquire ctx s').1 ≡ returns none) ↔ (s.held <ℤ n))
      × (s.held <ℤ n → (try_acquire ctx s').0.held ≡ s.held +ℤ pos 1)
      × (n ≤ℤ s.held → (try_acquire ctx s').0 ≡ s')
      × (pos 0 <ℤ s.held → (release s').held ≡ s.held -ℤ pos 1)
unfolding set_limit try_acquire release int64 ◌+ℤ◌ ◌-ℤ◌
set_limit_drains n ctx s h b = ground arith
