-- ===== src/Topics.antt =====
-- crates/core/src/topics.rs, and `parse_roaster_topic` of crates/server/src/main.rs.
-- `format!` is concatenation; `split('/')` of the standard library is `split_slash`.
pub mod Laws
mod Examples
use Prim.Native.Char.{Char, code}
use Prim.Native.String
use Prim.Native.String.{[], ◌∷◌}
use rust_roast.Prelude.{
  String, Bool, true, false, List, [], ◌∷◌, Option, none, some, nat_eq, str_eq, if◌then◌else◌,
}

infixr 65 ◌++◌
abbrev pub ◌++◌ : String → String → String
s ++ t = String.◌++◌ s t

abbrev pub root : String
root = "roaster"

unfoldable pub telemetry_topic : String → String
telemetry_topic device_id = root ++ "/" ++ device_id ++ "/telemetry"

unfoldable pub status_topic : String → String
status_topic device_id = root ++ "/" ++ device_id ++ "/status"

unfoldable pub control_root : String → String
control_root device_id = root ++ "/" ++ device_id ++ "/control"

unfoldable pub control_setpoint : String → String
unfolding control_root
control_setpoint device_id = control_root device_id ++ "/setpoint"

unfoldable pub control_fan_pwm : String → String
unfolding control_root
control_fan_pwm device_id = control_root device_id ++ "/fan_pwm"

unfoldable pub control_heater_pwm : String → String
unfolding control_root
control_heater_pwm device_id = control_root device_id ++ "/heater_pwm"

unfoldable pub control_mode : String → String
unfolding control_root
control_mode device_id = control_root device_id ++ "/mode"

unfoldable pub control_heater_enable : String → String
unfolding control_root
control_heater_enable device_id = control_root device_id ++ "/heater_enable"

unfoldable pub control_pid : String → String
unfolding control_root
control_pid device_id = control_root device_id ++ "/pid"

unfoldable pub control_emergency_stop : String → String
unfolding control_root
control_emergency_stop device_id = control_root device_id ++ "/emergency_stop"

unfoldable pub autotune_status : String → String
autotune_status device_id = root ++ "/" ++ device_id ++ "/autotune/status"

unfoldable pub autotune_start : String → String
autotune_start device_id = root ++ "/" ++ device_id ++ "/autotune/start"

unfoldable pub autotune_stop : String → String
autotune_stop device_id = root ++ "/" ++ device_id ++ "/autotune/stop"

unfoldable pub autotune_apply : String → String
autotune_apply device_id = root ++ "/" ++ device_id ++ "/autotune/apply"

unfoldable pub autotune_results : String → String
autotune_results device_id = root ++ "/" ++ device_id ++ "/autotune/results"

abbrev pub is_slash : Char → Bool
is_slash c = nat_eq (code c) b'/'

-- The character goes to the front of the part that is being read.
abbrev pub push_front : Char → List String → List String
push_front c [] = (c ∷ []) ∷ []
push_front c (part ∷ parts) = (c ∷ part) ∷ parts

unfoldable pub split_slash : String → List String
split_slash [] = "" ∷ []
split_slash (c ∷ s) =
    let parts = split_slash s in if is_slash c then "" ∷ parts else push_front c parts

-- The three calls of `next`, with the test of the root between the first two.
abbrev pub parse_parts : List String → Option (String × String)
parse_parts (first ∷ device ∷ kind ∷ rest) = if str_eq first root then some (device, kind) else none
parse_parts _ = none

unfoldable pub parse_roaster_topic : String → Option (String × String)
unfolding split_slash
parse_roaster_topic topic = parse_parts (split_slash topic)

-- The fourth part of a topic, which the consumer of autotune messages reads.
abbrev pub fourth : List String → Option String
fourth (_ ∷ _ ∷ _ ∷ sub ∷ _) = some sub
fourth _ = none

unfoldable pub autotune_sub : String → Option String
unfolding split_slash
autotune_sub topic = fourth (split_slash topic)

unfoldable pub has_slash : String → Bool
has_slash [] = false
has_slash (c ∷ s) = let rest = has_slash s in if is_slash c then true else rest
