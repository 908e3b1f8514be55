-- ===== src/Engine/Patch/Partial.antt =====
-- A patch that is refused part way.
use phantom_traffic.Prelude.{
  ◌≡◌, ◌≢◌, refl, String, Bool, true, false, List, Option, none, some, arith,
}
use phantom_traffic.Prelude.Int.{ℤ, pos, ◌<ℤ◌, leb_ℤ, ltb_ℤ}
use phantom_traffic.Prelude.Clock.{Time}
use phantom_traffic.Prelude.Float.{Float64}
use phantom_traffic.Pterr.{GoErr}
use phantom_traffic.Audit.{Event}
use phantom_traffic.Engine.Naming.{TargetSpec, Url}
use phantom_traffic.Engine.Semaphore.{set_limit}
use phantom_traffic.Engine.Patch.{
  PatchedRun, then_do, on_some, patch_concurrency, patch_rotation, finish, apply_patch, parts,
}

module _ {F : Type 0} (ops : Float64 F) where
  -- A patch that sets a concurrency of at least 1 and a negative rotation interval is refused, and the
  -- concurrency is set all the same, whatever it adds or disables.
  pub refused_patch_applied :
      (sink : Event → Option GoErr) (parse : String → Option Url) (permits : String → Bool)
      (now : Time) (n sec : ℤ) (specs : List TargetSpec) (tids : List String) (r : PatchedRun F)
      → pos 0 <ℤ n
      → sec <ℤ pos 0
      → let (r', err) =
          apply_patch ops sink parse permits now
            (record {
              caps = none;
              concurrency = some n;
              weights = none;
              rotation_int_sec = some sec;
              targets_add = specs;
              targets_disable = tids;
            })
            r in
        (err ≢ none) × (r'.sem.limit ≡ n)
  unfolding apply_patch parts on_some then_do patch_concurrency patch_rotation finish set_limit
  refused_patch_applied sink parse permits now n sec specs tids r h k =
      let good : leb_ℤ n (pos 0) ≡ false = ground arith in
      let bad : ltb_ℤ sec (pos 0) ≡ true = ground arith in rw (good, bad) ((λ e. cc), refl)
