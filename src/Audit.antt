-- ===== src/Audit.antt =====
-- internal/audit/audit.go: the closed vocabulary of audited actions and the event that a caller
-- hands to a sink.
pub mod Encoding
pub mod Chain
pub mod Sink
use phantom_traffic.Prelude.{String}
use phantom_traffic.Prelude.Dict.{Dict}

pub data Action : Type 0 where
  tls_verification_skipped ssh_host_key_unverified cap_override_enabled : Action
  scenario_started scenario_stopped scenario_patched : Action

-- An event carries no time and no hash: the sink stamps them.
pub record Event : Type 0 where
  pub actor : String
  pub action : Action
  pub resource : String
  pub detail : Dict String
