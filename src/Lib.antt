-- ===== src/Lib.antt =====
-- PhantomTraffic, a generator of protocol traffic in Go: its scenarios, the behaviour of its virtual
-- users, its engine and its safety controls.
--
-- A scenario file is decoded and validated into a frozen scenario: blocks with their personas, caps under
-- a ceiling, an allowlist of hosts, and a schedule. A persona makes sessions, which plan the steps of a
-- virtual user. Start makes a run of a scenario, with a scheduler, and a ramp governor and a timer for
-- each block.
--
-- A run drives virtual users against targets. Each worker asks its behaviour for a step, waits at the
-- pause gate, and takes an action through the target's circuit breaker, the two-tier limiter with
-- its tripwire, the block's semaphore and the protocol handler with its retries; the result goes to
-- the breaker and to the counters. The run itself is a state machine that the operator pauses,
-- resumes, stops and patches while workers run.
--
--   Prelude         Go's int64 with its wrap-around, time and durations, contexts, maps, float64
--   Pterr           internal/pterr: error classes and their classification
--   Audit           internal/audit/audit.go: actions and events. Audit.Encoding is hash.go, Audit.Chain
--                   the replay of filesink.go, Audit.Sink the sink (NewFileSink, Append, Verify, Close)
--                   and ValidateEvent on ASCII texts; a Write that fails may leave a part of the JSON
--   Protocols       internal/protocols/result.go; Protocols.Allow is the allowlist of target.go,
--                   Protocols.Action action.go, ref.go and identity.go
--   Scenario        internal/scenario: the raw and the frozen types; Scenario.Labels is enums.go;
--                   Scenario.Hosts, Windows, Blocks and Validate are validate.go, with the
--                   violations and the result as two functions of the raw scenario
--   Persona         internal/persona: Persona.Decode is decode.go, Persona.Compile validate.go,
--                   Persona.Builtins load.go; Persona.Driven joins it to the sessions
--   Behavior        internal/behavior: Dist is dist.go and jitter.go, Mix plan.go, Burst burst.go, Shaper
--                   timeofday.go and shaper.go, Fingerprint fingerprint.go, Selector
--                   selector.go and bounds.go, Session session.go
--   Schedule        internal/schedule/schedule.go
--   Clock           internal/clock/fake.go: the deterministic clock
--   Engine.Gate     internal/engine/gate.go: pause, resume, pausedTotal, wait
--   Engine.State, Engine.Lifecycle   internal/engine/state.go and run.go: transitionTo, Pause, Resume,
--                   Stop and complete, as goroutines that interleave, and the audit events of
--                   ApplyPatch meanwhile
--   Engine.Scheduler  internal/engine/run.go, runScheduler: a step relation with the clock and the operator
--   Engine.Supervisor  internal/engine/run.go: runRampGovernor, runBlockDuration, initialLimit, targetIDsOf
--                   and the maps that Start makes
--   Engine.Worker   internal/engine/worker.go and panic.go: runAction; Worker.Retry is doWithRetry,
--                   Worker.Session is runWorker
--   Engine.Patch, Engine.Naming, Engine.Weights   internal/engine/patch.go: ApplyPatch and its parts
--   Engine.Semaphore, Engine.Selector, Engine.Histogram, Engine.Stats   the files of those names in
--                   internal/engine
--   Engine.Publisher  internal/engine/publisher.go
--   Engine.Pacing   internal/engine/backoff.go and ramp.go
--   Safety.Breaker, Safety.Tripwire, Safety.Caps   internal/safety: breaker.go, tripwire.go; ceiling.go,
--                   capspec.go, cappatch.go and validate.go
--   Safety.Bucket, Safety.Limiter   internal/safety/bucket.go and limiter.go
--   Tests           concrete runs
--
-- A method becomes a function from the state that it locks to the state that it leaves. The name is the
-- Go name in snake case; a helper carries a name of its own where one method is several functions. A
-- method that holds its mutex throughout is one step; Pause, Resume, Stop and complete, which do not,
-- are program counters, and a schedule is any sequence of their steps. A call that can block returns
-- `blocks`. int, int64 and durations are integers whose wrap-around is written as `int64`, uint64
-- counts wrap at 2^64. A Go map is an association list. float64 is the interface Prelude.Float: a
-- theorem names the facts about rounding or comparison that it needs. Instants that the code reads
-- from the clock, the random source, the handler, the behaviour of a worker, the decoders of YAML and
-- JSON, the parsers of URLs, durations, addresses and time zones, and the answers of the audit sink to a
-- run are arguments. A text is a String where it is compared, and its bytes where it is taken apart. A
-- time.Location is what its clocks read at each instant, with time.Date.
--
-- Fuel: the retry loop runs on MaxRetries + 1 rounds and is proved to end within them; `gcd` runs on
-- `b + 1` rounds, since its second argument falls; a worker runs for any number of rounds, since its
-- behaviour may go on for ever. NextTransition scans eight days, as the code does, and a schedule is proved
-- to repeat itself every week, so that these are enough.
--
-- Not modelled: a Write that fails after the JSON and before the newline, the decoding of YAML and JSON,
-- the registry of handlers, the goroutines of startSupervisor with their wait group, the real clock, the
-- DNS cache and the cookie jar (interfaces without code), the command line, and the file and network
-- I/O behind the handlers.
pub mod Prelude
pub mod Pterr
pub mod Audit
pub mod Protocols
pub mod Behavior
pub mod Clock
pub mod Engine
pub mod Persona
pub mod Safety
pub mod Scenario
pub mod Schedule
pub mod Tests
