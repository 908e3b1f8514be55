-- ===== src/Protocols/Action.antt =====
-- internal/protocols/action.go, identity.go and ref.go: what a planned action is for, who paces it, and
-- which protocols there are.
use phantom_traffic.Prelude.{String, Bool, ◌||◌, str_eq}
use Prim.Native.String.{◌++◌}

pub data Cause : Type 0 where
  cause_navigation cause_sub_resource cause_background cause_control : Cause

unfoldable pub cause_text : Cause → String
cause_text cause_navigation = "navigation"
cause_text cause_sub_resource = "sub-resource"
cause_text cause_background = "background"
cause_text cause_control = "control"

pub data PacingMode : Type 0 where
  pacing_shaper_managed pacing_self_paced : PacingMode

unfoldable pub pacing_text : PacingMode → String
pacing_text pacing_shaper_managed = "shaper-managed"
pacing_text pacing_self_paced = "self-paced"

pub record Ref : Type 0 where
  pub protocol : String
  pub verb : String

unfoldable pub ref_text : Ref → String
ref_text r = (r.protocol ++ ":") ++ r.verb

unfoldable pub is_known_protocol : String → Bool
is_known_protocol p = str_eq p "http" || (str_eq p "dns" || (str_eq p "ssh" || str_eq p "stream"))
