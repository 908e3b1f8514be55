-- ===== src/Prelude/Context.antt =====
-- What a call that takes a context sees of it, and what a call that can block does when its
-- goroutine runs.
use Prim.Native.String.{String}

-- ctx.Err() of a context that is done; `none` stands for nil.
pub data CtxErr : Type 0 where
  canceled deadline_exceeded : CtxErr

unfoldable pub ctx_text : CtxErr → String
ctx_text canceled = "context canceled"
ctx_text deadline_exceeded = "context deadline exceeded"

-- It returns, or it sleeps until it is woken.
pub data Poll {ℓ} (A : Type ℓ) : Type ℓ where
  returns : A → Poll A
  blocks : Poll A
