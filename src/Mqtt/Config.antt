-- ===== src/Mqtt/Config.antt =====
-- crates/mqtt/src/config.rs: the configuration of the client from the environment, and the options
-- that crates/mqtt/src/client.rs makes of it. `env` is `env::var`, with none for a variable that is
-- not set or no text.
pub mod Port
pub mod Values
mod Examples
use Prim.Native.Char.{Char, code}
use Prim.Native.String.{[], ◌∷◌}
use rust_roast.Prelude.{
  ℕ, ◌+◌, ◌-◌, ◌*◌, ◌^◌, String, Bool, true, false, ◌&&◌, Option, none, some, str_eq, nat_eq, ltb,
  leb, if◌then◌else◌, to_decimal,
}
use rust_roast.Topics as Topics
use rust_roast.Tables.{keep_or}

pub record MqttConfig : Type 0 where
  pub host : String
  pub port : ℕ
  pub client_id : String
  pub username : Option String
  pub password : Option String
  pub keep_alive_secs : ℕ
  pub clean_session : Bool

-- `u16::from_str` after the sign: an error at a character that is no digit and on overflow.
unfoldable pub parse_digits : ℕ → String → Option ℕ
parse_digits acc [] = some acc
parse_digits acc (c ∷ s) =
    let next = acc * 10 + (code c - 48) in
    let rest = parse_digits next s in
    if (leb 48 (code c) && leb (code c) 57) && ltb next (2 ^ 16) then rest else none

abbrev pub after_sign : String → Option ℕ
after_sign [] = none
after_sign (c ∷ s) = parse_digits 0 (c ∷ s)

-- `parse::<u16>()`: a plus sign may come first, and a digit must follow.
unfoldable pub parse_u16 : String → Option ℕ
unfolding parse_digits
parse_u16 [] = none
parse_u16 (c ∷ s) = if nat_eq (code c) b'+' then after_sign s else parse_digits 0 (c ∷ s)

-- A variable that is set and not empty.
abbrev pub non_empty : Option String → Option String
non_empty none = none
non_empty (some v) = if str_eq v "" then none else some v

abbrev pub number_in : Option String → Option ℕ
number_in none = none
number_in (some v) = parse_u16 v

-- The name of the host, if there is one that is a text, and the process.
unfoldable pub default_client_id : Option String → ℕ → String
default_client_id hostname pid =
    Topics.◌++◌ "rustroast-"
      (Topics.◌++◌ (keep_or hostname "unknown-host") (Topics.◌++◌ "-" (to_decimal pid)))

unfoldable pub default_config : Option String → ℕ → MqttConfig
default_config hostname pid = record {
  host = "192.168.1.254";
  port = 1883;
  client_id = default_client_id hostname pid;
  username = none;
  password = none;
  keep_alive_secs = 30;
  clean_session = true;
}

unfoldable pub from_env : (String → Option String) → Option String → ℕ → MqttConfig
unfolding default_config
from_env env hostname pid =
    let cfg = default_config hostname pid in
    record {
      host = keep_or (non_empty (env "MQTT_BROKER_HOST")) cfg.host;
      port = keep_or (number_in (env "MQTT_BROKER_PORT")) cfg.port;
      client_id = keep_or (non_empty (env "MQTT_CLIENT_ID")) cfg.client_id;
      username = non_empty (env "MQTT_USERNAME");
      password = non_empty (env "MQTT_PASSWORD");
      keep_alive_secs = keep_or (number_in (env "MQTT_KEEP_ALIVE_SECS")) cfg.keep_alive_secs;
      clean_session = cfg.clean_session;
    }

-- `MqttOptions` of the crate `rumqttc`, with what `build_client` sets.
pub record MqttOptions : Type 0 where
  pub client_id : String
  pub host : String
  pub port : ℕ
  pub keep_alive : ℕ
  pub clean_session : Bool
  pub credentials : Option (String × String)
  pub request_channel_capacity : ℕ

-- The credentials are set only with both a name and a password.
abbrev pub both {ℓ} : {A : Type ℓ} → Option A → Option A → Option (A × A)
both none p = none
both (some u) none = none
both (some u) (some p) = some (u, p)

unfoldable pub build_client : MqttConfig → MqttOptions
build_client config = record {
  client_id = config.client_id;
  host = config.host;
  port = config.port;
  keep_alive = config.keep_alive_secs;
  clean_session = config.clean_session;
  credentials = both config.username config.password;
  request_channel_capacity = 64;
}
