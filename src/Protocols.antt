-- ===== src/Protocols.antt =====
-- internal/protocols/result.go and errors.go: what a handler reports of one action, and the part of a
-- planned action that the engine reads. `error` is `GoErr`. Durations and byte counts are int64.
pub mod Action
pub mod Allow
use phantom_traffic.Prelude.{ℕ, String, Bool, Option, none}
use phantom_traffic.Prelude.Int.{ℤ, pos}
use phantom_traffic.Prelude.Clock.{Time, Duration}
use phantom_traffic.Pterr.{Class, class_transient}

pub data Outcome : Type 0 where
  outcome_success outcome_failure outcome_skipped : Outcome
  outcome_cancelled outcome_panicked outcome_reconnect : Outcome

unfoldable pub outcome_text : Outcome → String
outcome_text outcome_success = "success"
outcome_text outcome_failure = "failure"
outcome_text outcome_skipped = "skipped"
outcome_text outcome_cancelled = "cancelled"
outcome_text outcome_panicked = "panicked"
outcome_text outcome_reconnect = "reconnect"

pub record HttpMeta : Type 0 where
  pub status : ℤ
  pub method : String
  pub redirects : ℤ

pub record DnsMeta : Type 0 where
  pub rcode : String
  pub qtype : String
  pub cache_hit : Bool
  pub answers : ℤ

pub record SshMeta : Type 0 where
  pub exit_code : ℤ
  pub verb : String

pub record StreamMeta : Type 0 where
  pub variant_bitrate_kbps : ℤ
  pub segment_index : ℤ
  pub buffer_ms : ℤ

-- An error class is a number in Go, and `class_transient` is its zero value.
pub record Result : Type 0 where
  pub protocol : String
  pub action : String
  pub target_id : String
  pub session : String
  pub seq : ℕ
  pub nav : String
  pub outcome : Outcome
  pub err_class : Class
  pub err_code : String
  pub started_at : Time
  pub latency : Duration
  pub bytes_in : ℤ
  pub bytes_out : ℤ
  pub http : Option HttpMeta
  pub dns : Option DnsMeta
  pub ssh : Option SshMeta
  pub stream : Option StreamMeta

abbrev pub zero_result : Result
zero_result = record {
  protocol = "";
  action = "";
  target_id = "";
  session = "";
  seq = 0;
  nav = "";
  outcome = outcome_success;
  err_class = class_transient;
  err_code = "";
  started_at = 0;
  latency = pos 0;
  bytes_in = pos 0;
  bytes_out = pos 0;
  http = none;
  dns = none;
  ssh = none;
  stream = none;
}

-- Of a PlannedAction: the reference and the target's ID.
pub record Planned : Type 0 where
  pub protocol : String
  pub verb : String
  pub target_id : String

-- Of a Target: what the engine sets when it makes one.
pub record Target : Type 0 where
  pub id : String
  pub proto : String
  pub addr : String
