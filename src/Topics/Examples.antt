-- ===== src/Topics/Examples.antt =====
-- Runs of the topic functions, and the theorems of the topics at concrete device ids.
use rust_roast.Prelude.{String, false, List, ◌∷◌, ◌≡◌, refl}
use rust_roast.Topics.{root, telemetry_topic, parse_roaster_topic, has_slash}
use rust_roast.Topics.Laws.{ReadsBack, parse-topics, join_slash, parse_roaster_topic_sound}

telemetry_of_esp32 : telemetry_topic "esp32-001" ≡ "roaster/esp32-001/telemetry"
unfolding telemetry_topic
telemetry_of_esp32 = refl

abbrev plain : has_slash "esp32-001" ≡ false
plain = unfold has_slash in refl

parse-topics_example : ReadsBack "esp32-001"
parse-topics_example = parse-topics "esp32-001" plain

parse_roaster_topic_sound_example :
    (rest : List String) × ("roaster/a/control/mode" ≡ join_slash (root ∷ "a" ∷ "control" ∷ rest))
    × (has_slash "a" ≡ false)
    × (has_slash "control" ≡ false)
unfolding parse_roaster_topic
parse_roaster_topic_sound_example = parse_roaster_topic_sound "roaster/a/control/mode" refl
