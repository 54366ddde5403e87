-- ===== src/Ntrip/Config.antt =====
-- The settings of `NTRIPClientNode`, ntrip_client_node/src/ntrip_client_node.cpp, the URL that they
-- give, and the parameter callback, which writes the pending ones.
use unicore_ros.Base.{Bool, true, false, ◌||◌, List, [], ◌∷◌, ◌++◌, ltb, if◌then◌else◌}
use unicore_ros.Base.Int.{ℤ, pos, negsuc}
use unicore_ros.Base.Text.{Text, codes, text_eq, to_string_int}

pub record Config : Type 0 where
  pub use_https : Bool
  pub host : Text
  pub port : ℤ
  pub mountpoint : Text
  pub username : Text
  pub password : Text
  pub log_level : Text
  pub maxage_conn : ℤ

unfoldable pub connection_url : Config → Text
connection_url c =
    (if c.use_https then codes "https://" else codes "http://")
    ++ (c.host ++ (codes ":" ++ (to_string_int c.port ++ (codes "/" ++ c.mountpoint))))

-- The value of an `rclcpp::Parameter`; `other` is one of a type that the node does not read.
pub data ParameterValue : Type 0 where
  boolean : Bool → ParameterValue
  integer : ℤ → ParameterValue
  string : Text → ParameterValue
  other : ParameterValue

pub record Parameter : Type 0 where
  pub name : Text
  pub value : ParameterValue

-- How the callback ends: `successful`, with a reason, or by the exception of `as_bool`, `as_int` or
-- `as_string` on a value of another type.
pub data SetResult : Type 0 where
  successful : SetResult
  rejected : Text → SetResult
  thrown : SetResult

-- One parameter: the pending settings after it, or the end of the callback.
pub data Assigned : Type 0 where
  kept : Config → Assigned
  ended : SetResult → Assigned

abbrev pub is_blank : Text → Bool
is_blank [] = true
is_blank (_ ∷ _) = false

-- `port < 1 || port > 65535`
abbrev pub no_port : ℤ → Bool
no_port (pos n) = ltb n 1 || ltb 65535 n
no_port (negsuc n) = true

-- The branches of the chain of tests on the name; the last is that of any other name.
pub data Setting : Type 0 where
  use_https host port mountpoint username password log_level maxage_conn unknown : Setting

unfoldable pub setting_of : Text → Setting
setting_of name =
    if text_eq name (codes "use_https")
    then Setting.use_https
    else if text_eq name (codes "host")
    then Setting.host
    else if text_eq name (codes "port")
    then Setting.port
    else if text_eq name (codes "mountpoint")
    then Setting.mountpoint
    else if text_eq name (codes "username")
    then Setting.username
    else if text_eq name (codes "password")
    then Setting.password
    else if text_eq name (codes "log_level")
    then Setting.log_level
    else if text_eq name (codes "maxage_conn")
    then Setting.maxage_conn
    else Setting.unknown

-- What each branch does with the value.
unfoldable pub assign : Setting → ParameterValue → Config → Assigned
assign Setting.use_https (boolean b) c = kept (record c { use_https = b })
assign Setting.host (string t) c =
    if is_blank t
    then ended (rejected (codes "host cannot be empty"))
    else kept (record c { host = t })
assign Setting.port (integer n) c =
    if no_port n
    then ended (rejected (codes "port must be between 1 and 65535"))
    else kept (record c { port = n })
assign Setting.mountpoint (string t) c =
    if is_blank t
    then ended (rejected (codes "mountpoint cannot be empty"))
    else kept (record c { mountpoint = t })
assign Setting.username (string t) c = kept (record c { username = t })
assign Setting.password (string t) c = kept (record c { password = t })
assign Setting.log_level (string t) c = kept (record c { log_level = t })
assign Setting.maxage_conn (integer n) c = kept (record c { maxage_conn = n })
assign Setting.unknown _ c = kept c
assign _ _ c = ended thrown

-- The body of the loop.
unfoldable pub set_parameter : Parameter → Config → Assigned
unfolding setting_of assign
set_parameter p pending = assign (setting_of p.name) p.value pending

-- The loop: the pending settings that it leaves, early returns included, and the result.
unfoldable pub set_parameters : List Parameter → Config → Config × SetResult
unfolding set_parameter
set_parameters [] pending = (pending, successful)
set_parameters (p ∷ parameters) pending = elim (set_parameter p pending) [
  | kept next ↦ set_parameters parameters next
  | ended result ↦ (pending, result)
]
