-- ===== src/Mqtt/Config/Values.antt =====
-- What the configuration from an environment has, whatever its variables hold.
use Prim.Native.Char.{code}
use Prim.Native.String.{[], ◌∷◌}
use text.Mathlib.TextLemmas.{cons-append, cons-ne-nil}
use rust_roast.Prelude.{
  ℕ, ◌+◌, ◌-◌, ◌*◌, ◌^◌, ◌<◌, String, Bool, true, false, ◌&&◌, Option, none, some, ◌≡◌, refl, sym,
  arith, str_eq, str_eq_ne, nat_eq, ltb, leb, Bool-cases, Option-cases, inl, inr, to_decimal,
}
use rust_roast.Tables.{keep_or}
use rust_roast.Mqtt.Config.{
  MqttConfig, MqttOptions, parse_digits, parse_u16, after_sign, non_empty, number_in, from_env,
  default_config, default_client_id, both, build_client,
}
use rust_roast.Mqtt.Config.Port.{blank, parse_u16-to_decimal}

parse_digits-bound :
    (acc : ℕ) (s : String) (n : ℕ) → acc < 2 ^ 16 → parse_digits acc s ≡ some n → n < 2 ^ 16
unfolding parse_digits
parse_digits-bound acc [] n k e = ground arith
parse_digits-bound acc (c ∷ s) n k e =
    let next = acc * 10 + (code c - 48) in
    elim (Bool-cases ((leb 48 (code c) && leb (code c) 57) && ltb next (2 ^ 16))) [
      | inl f ↦ parse_digits-bound next s n (ground arith) (ground arith)
      | inr f ↦ ground arith
    ]

after_sign-bound : (s : String) (n : ℕ) → after_sign s ≡ some n → n < 2 ^ 16
after_sign-bound [] n e = cc
after_sign-bound (c ∷ s) n e = parse_digits-bound 0 (c ∷ s) n (omega arith) e

parse_u16-bound : (s : String) (n : ℕ) → parse_u16 s ≡ some n → n < 2 ^ 16
unfolding parse_u16
parse_u16-bound [] n e = cc
parse_u16-bound (c ∷ s) n e = elim (Bool-cases (nat_eq (code c) b'+')) [
  | inl k ↦ after_sign-bound s n (ground arith)
  | inr k ↦ parse_digits-bound 0 (c ∷ s) n (omega arith) (ground arith)
]

number_in-bound : (v : Option String) (old : ℕ) → old < 2 ^ 16 → keep_or (number_in v) old < 2 ^ 16
number_in-bound none old k = k
number_in-bound (some v) old k = elim (Option-cases (parse_u16 v)) [
  | inl e ↦ rw e k
  | inr (n, e) ↦ rw e (parse_u16-bound v n e)
]

non_empty-keep :
    (v : Option String) (old : String)
    → str_eq old "" ≡ false
    → str_eq (keep_or (non_empty v) old) "" ≡ false
non_empty-keep none old k = k
non_empty-keep (some v) old k = elim (Bool-cases (str_eq v "")) [ inl e ↦ rw e k | inr e ↦ rw e e ]

non_empty-some : (v : Option String) (s : String) → non_empty v ≡ some s → str_eq s "" ≡ false
non_empty-some none s e = cc
non_empty-some (some v) s e = ground arith

-- The options of a client: a host and an id that are not empty, numbers of 16 bits, credentials
-- only with a name and a password that are not empty, and the session cleaned.
pub record IsUsable (o : MqttOptions) : Type 0 where
  pub host : str_eq o.host "" ≡ false
  pub client_id : str_eq o.client_id "" ≡ false
  pub port : o.port < 2 ^ 16
  pub keep_alive : o.keep_alive < 2 ^ 16
  pub credentials :
      (user password : String)
      → o.credentials ≡ some (user, password)
      → (str_eq user "" ≡ false) × (str_eq password "" ≡ false)
  pub clean : o.clean_session ≡ true

both-parts :
    (v w : Option String) (user password : String)
    → both v w ≡ some (user, password)
    → (v ≡ some user) × (w ≡ some password)
both-parts none w user password e = cc
both-parts (some u) none user password e = cc
both-parts (some u) (some p) user password e = (cc, cc)

both-non_empty :
    (v w : Option String) (user password : String)
    → both (non_empty v) (non_empty w) ≡ some (user, password)
    → (str_eq user "" ≡ false) × (str_eq password "" ≡ false)
both-non_empty v w user password e =
    let (a, b) = both-parts (non_empty v) (non_empty w) user password e in
    (non_empty-some v user a, non_empty-some w password b)

not_blank : (s : String) → blank s ≡ false → str_eq s "" ≡ false
not_blank [] e = cc
not_blank (c ∷ s) e = str_eq_ne (c ∷ s) "" (cons-ne-nil c s)

default_id :
    (hostname : Option String) (pid : ℕ) → str_eq (default_client_id hostname pid) "" ≡ false
unfolding default_client_id
default_id hostname pid = not_blank (default_client_id hostname pid) (rw cons-append refl)

-- Whatever the environment holds, the client gets a host and an id that are not empty, a port and
-- a keep-alive of 16 bits, credentials only with a name and a password that are not empty, and a
-- clean session.
pub from_env-IsUsable :
    (env : String → Option String) (hostname : Option String) (pid : ℕ)
    → IsUsable (build_client (from_env env hostname pid))
unfolding from_env build_client default_config
from_env-IsUsable env hostname pid = record {
  host = non_empty-keep (env "MQTT_BROKER_HOST") "192.168.1.254" refl;
  client_id =
      non_empty-keep (env "MQTT_CLIENT_ID") (default_client_id hostname pid)
        (default_id hostname pid);
  port = number_in-bound (env "MQTT_BROKER_PORT") 1883 (omega arith);
  keep_alive = number_in-bound (env "MQTT_KEEP_ALIVE_SECS") 30 (omega arith);
  credentials = both-non_empty (env "MQTT_USERNAME") (env "MQTT_PASSWORD");
  clean = refl;
}

abbrev pub is_blank : Option String → Bool
is_blank none = false
is_blank (some v) = str_eq v ""

-- An environment that holds the fields of a configuration, its numbers in decimal digits: no text is
-- empty, the numbers have 16 bits, and the session is cleaned.
pub record IsPrinted (env : String → Option String) (cfg : MqttConfig) : Type 0 where
  pub host : env "MQTT_BROKER_HOST" ≡ some cfg.host
  pub port : env "MQTT_BROKER_PORT" ≡ some (to_decimal cfg.port)
  pub client_id : env "MQTT_CLIENT_ID" ≡ some cfg.client_id
  pub username : env "MQTT_USERNAME" ≡ cfg.username
  pub password : env "MQTT_PASSWORD" ≡ cfg.password
  pub keep_alive_secs : env "MQTT_KEEP_ALIVE_SECS" ≡ some (to_decimal cfg.keep_alive_secs)
  pub some_host : str_eq cfg.host "" ≡ false
  pub some_id : str_eq cfg.client_id "" ≡ false
  pub some_username : is_blank cfg.username ≡ false
  pub some_password : is_blank cfg.password ≡ false
  pub port_bound : cfg.port < 2 ^ 16
  pub keep_alive_bound : cfg.keep_alive_secs < 2 ^ 16
  pub clean : cfg.clean_session ≡ true

non_empty-text : (v : Option String) → is_blank v ≡ false → non_empty v ≡ v
non_empty-text none e = refl
non_empty-text (some v) e = rw e refl

-- From an environment that holds the fields of a configuration, its numbers of 16 bits in decimal
-- digits, no text empty and the session cleaned, that configuration is read back.
pub from_env-reads :
    (env : String → Option String) (hostname : Option String) (pid : ℕ) (cfg : MqttConfig)
    → IsPrinted env cfg
    → from_env env hostname pid ≡ cfg
unfolding from_env default_config
from_env-reads env hostname pid cfg v =
    rw
      (
        v.host,
        v.some_host,
        v.port,
        parse_u16-to_decimal cfg.port v.port_bound,
        v.client_id,
        v.some_id,
        v.username,
        non_empty-text cfg.username v.some_username,
        v.password,
        non_empty-text cfg.password v.some_password,
        v.keep_alive_secs,
        parse_u16-to_decimal cfg.keep_alive_secs v.keep_alive_bound,
        sym v.clean,
      )
      refl
