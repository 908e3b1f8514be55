-- ===== src/Safety/Caps/Fleet.antt =====
-- DividedBy: the shares of a fleet of agents against the ceiling that they share.
use phantom_traffic.Prelude.{ℕ, ◌*◌, ◌≤◌, ◌<◌, ◌≡◌, refl, ◌↔◌, arith}
use phantom_traffic.Prelude.Int.{ℤ, pos, negsuc, pos_part, ◌≤ℤ◌, ◌<ℤ◌, quot}
use phantom_traffic.Prelude.Float.{Float64}
use phantom_traffic.Safety.Caps.{Ceiling, divided_by, share, at_least_one}

-- A share of at least 1, of which `n` fit into the cap exactly if the cap is at least `n`.
abbrev pub Fits : ℕ → ℤ → ℤ → Type 0
Fits n cap e = (pos 1 ≤ℤ e) × ((n * pos_part e ≤ pos_part cap) ↔ (n ≤ pos_part cap))

share-Fits : (n : ℕ) (cap : ℤ) → 0 < n → pos 0 ≤ℤ cap → Fits n cap (share cap (pos n))
unfolding share quot
share-Fits n (pos k) h p = (ground arith, (λ le. grind arith, λ le. grind arith))
share-Fits n (negsuc k) h p = absurd (omega arith)

at_least_one_lem :
    (k : ℤ) → (k <ℤ pos 1 → at_least_one k ≡ pos 1) × (pos 1 ≤ℤ k → at_least_one k ≡ k)
unfolding at_least_one
at_least_one_lem k = (λ h. ground arith, λ h. ground arith)

module _ {F : Type 0} (ops : Float64 F) where
  -- DividedBy gives each of `n` agents at least 1 of each of the four shared integer caps (sessions, the
  -- request budget, the byte rate and the streams), and the `n` shares together stay within the ceiling
  -- exactly where the ceiling is at least `n`: below that the floor of 1 lets the fleet exceed it. Each
  -- of the two shared rates is its float quotient by `n`, without a floor. The caps of one session are
  -- left as they are, and a count below 1 divides as 1 does. Conditions: `n` is positive, and none of the
  -- four integer caps is negative.
  pub divided_by_fleet :
      (c : Ceiling F) (n : ℕ)
      → 0 < n
      → pos 0 ≤ℤ c.max_concurrent_sessions
      → pos 0 ≤ℤ c.total_request_budget
      → pos 0 ≤ℤ c.streaming_byte_rate_kbps
      → pos 0 ≤ℤ c.concurrent_streams
      → let d = divided_by ops c (pos n) in
        Fits n c.max_concurrent_sessions d.max_concurrent_sessions
        × Fits n c.total_request_budget d.total_request_budget
        × Fits n c.streaming_byte_rate_kbps d.streaming_byte_rate_kbps
        × Fits n c.concurrent_streams d.concurrent_streams
        × (d.per_target_rps ≡ ops.fdiv c.per_target_rps (ops.of_int (pos n)))
        × (d.global_rps ≡ ops.fdiv c.global_rps (ops.of_int (pos n)))
        × (d.per_session_max_duration ≡ c.per_session_max_duration)
        × (d.per_session_max_actions ≡ c.per_session_max_actions)
        × ((k : ℤ) → k <ℤ pos 1 → divided_by ops c k ≡ divided_by ops c (pos 1))
  unfolding divided_by
  divided_by_fleet c n h p₁ p₂ p₃ p₄ = rw ((at_least_one_lem (pos n)).1 (omega arith)) (
    share-Fits n c.max_concurrent_sessions h p₁,
    share-Fits n c.total_request_budget h p₂,
    share-Fits n c.streaming_byte_rate_kbps h p₃,
    share-Fits n c.concurrent_streams h p₄,
    refl,
    refl,
    refl,
    refl,
    λ k lt. rw ((at_least_one_lem k).0 lt, (at_least_one_lem (pos 1)).1 (omega arith)),
  )
