-- ===== src/Mqtt/Reset.antt =====
-- `api_mqtt_reset` and `readyz` of crates/server/src/main.rs, over the service of
-- crates/mqtt/src/client.rs.
use rust_roast.Prelude.{
  ℕ, String, Bool, true, false, ◌&&◌, List, [], ◌∷◌, ok, err, ◌≡◌, refl, ap, if◌then◌else◌,
}
use rust_roast.Sessions.Routes.{Reply}
use rust_roast.Mqtt.{QoS, MqttService, disconnect, resubscribe_from, resubscribe_tracked}

-- What the client answers: for each subscription whether it takes the request, at once and three
-- seconds after a disconnect, until which nothing else is subscribed, and whether the disconnect succeeds.
pub record ResetEnv : Type 0 where
  pub accepted : List Bool
  pub disconnected : Bool
  pub accepted_later : List Bool

-- The answer, the service after it, and the subscriptions that are requested at once and later.
pub record Reset : Type 0 where
  pub reply : Reply String
  pub service : MqttService
  pub requested : List (String × QoS)
  pub requested_later : List (String × QoS)

unfoldable pub api_mqtt_reset : MqttService → ResetEnv → Reset
unfolding resubscribe_tracked
api_mqtt_reset s env =
    let (made, all) = resubscribe_tracked s env.accepted in
    if all
    then record {
      reply = ok (200, "MQTT reset completed - subscriptions restored");
      service = s;
      requested = made;
      requested_later = [];
    }
    else if env.disconnected
    then record {
      reply = ok (200, "MQTT reset initiated - reconnection will happen automatically");
      service = disconnect s;
      requested = made;
      requested_later = (resubscribe_tracked (disconnect s) env.accepted_later).0;
    }
    else record {
      reply = err (500, "Failed to reset MQTT connection");
      service = s;
      requested = made;
      requested_later = [];
    }

-- `SELECT 1` succeeds when the database is reachable.
unfoldable pub readyz : MqttService → Bool → ℕ
readyz s db_ok = if s.ready && db_ok then 200 else 503

made_all :
    (subs : List (String × QoS)) (accepted : List Bool)
    → (resubscribe_from subs accepted).1 ≡ true
    → (resubscribe_from subs accepted).0 ≡ subs
unfolding resubscribe_from
made_all [] accepted e = refl
made_all (sub ∷ subs) [] e = ap (λ l. sub ∷ l) (made_all subs [] e)
made_all (sub ∷ subs) (false ∷ accepted) e = cc
made_all (sub ∷ subs) (true ∷ accepted) e = ap (λ l. sub ∷ l) (made_all subs accepted e)

-- A reset that the client takes all requests of asks for every tracked subscription again, and
-- answers that they are restored.
pub api_mqtt_reset-restores :
    (s : MqttService) (env : ResetEnv)
    → (resubscribe_tracked s env.accepted).1 ≡ true
    → ((api_mqtt_reset s env).requested ≡ s.subscriptions)
      × ((api_mqtt_reset s env).reply ≡ ok (200, "MQTT reset completed - subscriptions restored"))
unfolding api_mqtt_reset resubscribe_tracked
api_mqtt_reset-restores s env e = rw e (made_all s.subscriptions env.accepted e, refl)
