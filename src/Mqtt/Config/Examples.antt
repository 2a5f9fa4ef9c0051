-- ===== src/Mqtt/Config/Examples.antt =====
-- A configuration from a concrete environment.
use rust_roast.Prelude.{
  String, true, [], ◌∷◌, Option, none, some, ◌≡◌, refl, arith, to_decimal, lookup,
}
use rust_roast.Mqtt.Config.{MqttConfig, from_env, default_client_id, parse_u16}
use rust_roast.Mqtt.Config.Values.{IsPrinted, from_env-reads}

abbrev config : MqttConfig
config = record {
  host = "broker";
  port = 8883;
  client_id = "roastery";
  username = some "roaster";
  password = none;
  keep_alive_secs = 20;
  clean_session = true;
}

abbrev env : String → Option String
env key = lookup key (
    ("MQTT_BROKER_HOST", "broker")
    ∷ ("MQTT_BROKER_PORT", to_decimal 8883)
    ∷ ("MQTT_CLIENT_ID", "roastery")
    ∷ ("MQTT_USERNAME", "roaster")
    ∷ ("MQTT_KEEP_ALIVE_SECS", to_decimal 20)
    ∷ [])

env-IsPrinted : IsPrinted env config
unfolding lookup
env-IsPrinted = record {
  host = refl;
  port = refl;
  client_id = refl;
  username = refl;
  password = refl;
  keep_alive_secs = refl;
  some_host = refl;
  some_id = refl;
  some_username = refl;
  some_password = refl;
  port_bound = omega arith;
  keep_alive_bound = omega arith;
  clean = refl;
}

from_env-reads_example : from_env env (some "kitchen") 42 ≡ config
from_env-reads_example = from_env-reads env (some "kitchen") 42 config env-IsPrinted

abbrev poor_env : String → Option String
poor_env key = lookup key (("MQTT_BROKER_HOST", "") ∷ ("MQTT_KEEP_ALIVE_SECS", "70000") ∷ [])

the_defaults : from_env poor_env (some "kitchen") 42 ≡ record {
  host = "192.168.1.254";
  port = 1883;
  client_id = "rustroast-kitchen-42";
  username = none;
  password = none;
  keep_alive_secs = 30;
  clean_session = true;
}
unfolding from_env lookup to_decimal parse_u16 default_client_id
the_defaults = refl
