-- ===== src/Cupping/Examples.antt =====
-- Cuppings of two sessions.
use rust_roast.Prelude.{String, List, [], ◌∷◌, none, some, ◌≡◌, refl}
use rust_roast.Sample.{sample}
use rust_roast.Models.CuppingRows.{CreateCuppingAttributeRequest, CreateCuppingRequest}
use rust_roast.Models.SessionRows.{CreateSessionRequest}
use rust_roast.Sessions.{planned}
use rust_roast.Cupping.{
  Db, new_cupping, new_attribute, create_cupping, get_cupping, overall, str_le,
}
use rust_roast.Cupping.Integrity.{
  IsConsistent, Call, create, delete, delete_roast, run_all, run_all-IsConsistent,
}
use rust_roast.Cupping.Upsert.{IsUpsert, create_cupping-upserts}

abbrev session : CreateSessionRequest
session = record {
  name = "Guji";
  device_id = "d1";
  profile_id = none;
  bean_origin = none;
  bean_variety = none;
  green_weight = none;
  target_roast_level = none;
  notes = none;
  ambient_temp = none;
  humidity = none;
}

abbrev attributes : List (CreateCuppingAttributeRequest × String)
attributes =
    (record { name = "body"; score = 8 }, "a1") ∷ (record { name = "aroma"; score = 6 }, "a2") ∷ []

abbrev request : CreateCuppingRequest
request = record {
  scoring_framework = none;
  notes = some "sweet";
  attributes = record { name = "body"; score = 8 } ∷ record { name = "aroma"; score = 6 } ∷ [];
}

-- Session "s1" has a cupping already, and so has "s2".
abbrev tables : Db
tables = record {
  sessions = record {
    roast_sessions = planned session "s1" 10 ∷ planned session "s2" 11 ∷ [];
    session_telemetry = [];
    roast_events = [];
    profile_ids = [];
    settings = [];
  };
  cupping_scores =
      new_cupping sample "s1" request "c1" 20 ∷ new_cupping sample "s2" request "c2" 21 ∷ [];
  cupping_attributes = new_attribute "c1" 20 (record { name = "acidity"; score = 7 }, "a0") ∷ [];
}

create_cupping-upserts_example :
    IsUpsert sample tables "s1" request attributes "c3" 30
      (create_cupping sample tables "s1" request attributes "c3" 30)
create_cupping-upserts_example =
    create_cupping-upserts sample tables "s1" request attributes "c3" 30

average : overall sample request.attributes ≡ some 7
unfolding overall
average = refl

names_in_order :
    get_cupping (create_cupping sample tables "s1" request attributes "c3" 30).1 "s1"
    ≡ some (record {
      cupping = new_cupping sample "s1" request "c3" 30;
      attributes =
          new_attribute "c3" 30 (record { name = "aroma"; score = 6 }, "a2")
          ∷ new_attribute "c3" 30 (record { name = "body"; score = 8 }, "a1")
          ∷ [];
    })
unfolding create_cupping get_cupping str_le
names_in_order = refl

tables-IsConsistent : IsConsistent tables
tables-IsConsistent = record {
  keys = (refl, (refl, tt));
  once = (refl, (refl, tt));
  linked = (refl, (refl, tt));
  attached = (refl, tt);
}

abbrev calls : List Call
calls =
    create "s1" request attributes "c3" 30
    ∷ delete "s2"
    ∷ create "s9" request [] "c4" 31
    ∷ delete_roast "s1"
    ∷ []

run_all-IsConsistent_example : IsConsistent (run_all sample tables calls)
run_all-IsConsistent_example = run_all-IsConsistent sample tables calls tables-IsConsistent
