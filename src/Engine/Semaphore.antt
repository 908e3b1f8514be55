-- ===== src/Engine/Semaphore.antt =====
-- internal/engine/semaphore.go: the resizable semaphore. The lock is held between two waits, so an
-- attempt of acquire, a release and a resize are one step each. Counts are Go's int.
pub mod Drain
use phantom_traffic.Prelude.{Option, none, some, if◌then◌else◌}
use phantom_traffic.Prelude.Int.{ℤ, pos, ◌+ℤ◌, ◌-ℤ◌, int64, ltb_ℤ, leb_ℤ}
use phantom_traffic.Prelude.Context.{CtxErr, Poll, returns, blocks}

pub record Semaphore : Type 0 where
  pub limit : ℤ
  pub held : ℤ

unfoldable pub new_semaphore : ℤ → Semaphore
new_semaphore limit = record { limit = limit; held = pos 0 }

-- One round of acquire's loop, with the lock held: `s.held >= s.limit` looks at the context and
-- waits, else the permit is taken.
unfoldable pub try_acquire : Option CtxErr → Semaphore → Semaphore × Poll (Option CtxErr)
try_acquire ctx s =
    if leb_ℤ s.limit s.held
    then (s, elim ctx [ none ↦ blocks | some e ↦ returns (some e) ])
    else (record s { held = int64 (s.held +ℤ pos 1) }, returns none)

-- acquire up to its first wait: a context that is done is refused before the lock is taken.
unfoldable pub acquire : Option CtxErr → Semaphore → Semaphore × Poll (Option CtxErr)
unfolding try_acquire
acquire (some e) s = (s, returns (some e))
acquire none s = try_acquire none s

unfoldable pub release : Semaphore → Semaphore
release s = if ltb_ℤ (pos 0) s.held then record s { held = int64 (s.held -ℤ pos 1) } else s

unfoldable pub current_limit : Semaphore → ℤ
current_limit s = s.limit

unfoldable pub set_limit : ℤ → Semaphore → Semaphore
set_limit n s = record s { limit = n }
