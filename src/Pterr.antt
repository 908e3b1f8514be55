-- ===== src/Pterr.antt =====
-- internal/pterr: the classes of errors, the structured error, and how the class of an error tree is
-- found. A Go error is a plain text, a structured error with or without a cause, or a text that
-- wraps an error by `%w`.
pub mod Fields
use phantom_traffic.Prelude.{String, Bool, true, false, Option, none, some}
use Prim.Native.String.{◌++◌}

pub data Class : Type 0 where
  class_transient class_permanent class_config class_safety class_unknown : Class

unfoldable pub class_text : Class → String
class_text class_transient = "transient"
class_text class_permanent = "permanent"
class_text class_config = "config"
class_text class_safety = "safety"
class_text class_unknown = "unknown"

unfoldable pub default_retryable : Class → Bool
default_retryable class_transient = true
default_retryable class_unknown = true
default_retryable _ = false

pub record Error : Type 0 where
  pub class : Class
  pub code : String
  pub op : String
  pub msg : String
  pub retryable : Bool

pub data GoErr : Type 0 where
  plain : String → GoErr
  structured : Error → GoErr
  caused : Error → GoErr → GoErr
  wrapped : String → GoErr → GoErr

abbrev pub envelope : Class → String → String → String → Error
envelope class code op msg = record {
  class = class;
  code = code;
  op = op;
  msg = msg;
  retryable = default_retryable class;
}

-- New and Wrap
abbrev pub new_error : Class → String → String → String → GoErr
new_error class code op msg = structured (envelope class code op msg)

abbrev pub wrap : Class → String → String → String → GoErr → GoErr
wrap class code op msg cause = caused (envelope class code op msg) cause

-- The class of the first structured error that `errors.As` meets on the way down.
unfoldable pub classify_error : GoErr → Class
classify_error (plain text) = class_unknown
classify_error (structured e) = e.class
classify_error (caused e cause) = e.class
classify_error (wrapped text e) = classify_error e

unfoldable pub classify : Option GoErr → Class
unfolding classify_error
classify none = class_unknown
classify (some e) = classify_error e

unfoldable pub same_class : Class → Class → Bool
same_class class_transient class_transient = true
same_class class_permanent class_permanent = true
same_class class_config class_config = true
same_class class_safety class_safety = true
same_class class_unknown class_unknown = true
same_class _ _ = false

unfoldable pub is_class : Option GoErr → Class → Bool
unfolding classify same_class
is_class err c = same_class (classify err) c

face : Error → String
unfolding class_text
face e = class_text e.class ++ " [" ++ e.code ++ "] " ++ e.op ++ ": " ++ e.msg

-- Error(): the cause is not rendered. A text that wraps an error renders it.
unfoldable pub error_text : GoErr → String
unfolding face
error_text (plain text) = text
error_text (structured e) = face e
error_text (caused e cause) = face e
error_text (wrapped text e) = text ++ ": " ++ error_text e
