-- ===== src/Sessions/Queries/Latest.antt =====
-- What the search for the running session of a device finds.
use rust_roast.Prelude.{
  ℕ, String, Bool, true, false, ◌&&◌, not, List, [], ◌∷◌, Option, none, some, ◌≡◌, refl, ◌∙◌, sym,
  arith, subst, select, any, first, All, All-impl,
}
use rust_roast.Models.SessionRows.{RoastSession}
use rust_roast.Tables.{order_by, any_none}
use rust_roast.Tables.Sorted.{
  IsOrdered, IsOrdered-IsSorted, order_by-IsSorted, All-order_by, any-order_by,
}
use rust_roast.Sessions.{Db}
use rust_roast.Sessions.Queries.Listing.{selected}
use rust_roast.Sessions.Queries.{later_time, later, live, get_active_session}

later_time_total : (u t : Option ℕ) → later_time u t ≡ false → later_time t u ≡ true
later_time_total u none e = cc
later_time_total none (some t) e = refl
later_time_total (some u) (some t) e = ground arith

later_time_trans :
    (u t v : Option ℕ) → later_time u t ≡ true → later_time t v ≡ true → later_time u v ≡ true
later_time_trans u t none e f = refl
later_time_trans none none (some v) e f = cc
later_time_trans none (some t) (some v) e f = cc
later_time_trans (some u) none (some v) e f = cc
later_time_trans (some u) (some t) (some v) e f = ground arith

later_time_refl : (u : Option ℕ) → later_time u u ≡ true
later_time_refl none = refl
later_time_refl (some u) = ground arith

-- The answer for the running session of a device: none only if no session of the device is active
-- or paused, and otherwise one that is, and no such session started later.
pub record IsLatest (db : Db) (device_id : String) (answer : Option RoastSession) : Type 0 where
  pub none_running : answer ≡ none → any (live device_id) db.roast_sessions ≡ false
  pub running : (s : RoastSession) → answer ≡ some s → live device_id s ≡ true
  pub latest :
      (s : RoastSession)
      → answer ≡ some s
      → any (λ r. live device_id r && not (later s r)) db.roast_sessions ≡ false

latest-first :
    (rows : List RoastSession) (s : RoastSession)
    → IsOrdered later rows
    → first rows ≡ some s
    → any (λ r. not (later s r)) rows ≡ false
latest-first [] s v e = cc
latest-first (r ∷ rows) s v e =
    let same : r ≡ s = cc in
    subst (λ x. any (λ r. not (later x r)) (r ∷ rows) ≡ false) same
      (any_none (λ b. not (later r b)) (r ∷ rows)
        (
          rw (later_time_refl r.start_time) refl,
          All-impl (λ b. later r b ≡ true) (λ b. not (later r b) ≡ false) (λ b k. rw k refl) rows
              v.0,
        ))

any-select_self :
    (q : RoastSession → Bool) (rows : List RoastSession) → any q (select q rows) ≡ any q rows
any-select_self q [] = refl
any-select_self q (s ∷ rows) = ground (arith, any-select_self q rows)

none-first :
    (q : RoastSession → Bool) (rows : List RoastSession) → first rows ≡ none → any q rows ≡ false
none-first q [] e = refl
none-first q (s ∷ rows) e = cc

first_of :
    (P : RoastSession → Type 0) (rows : List RoastSession) (s : RoastSession)
    → first rows ≡ some s
    → All P rows
    → P s
first_of P [] s e v = cc
first_of P (r ∷ rows) s e v = subst P (cc) v.0

any-select :
    (q p : RoastSession → Bool) (rows : List RoastSession)
    → any p (select q rows) ≡ any (λ r. q r && p r) rows
any-select q p [] = refl
any-select q p (s ∷ rows) = ground (arith, any-select q p rows)

-- The running session of a device is looked for: there is no answer only if no session of the device
-- is active or paused, and otherwise the answer is one that is, and none of them started later.
pub get_active_session-IsLatest :
    (db : Db) (device_id : String) → IsLatest db device_id (get_active_session db device_id)
unfolding get_active_session
get_active_session-IsLatest db device_id =
    let rows = select (live device_id) db.roast_sessions in
    let ordered : IsOrdered later (order_by later rows) =
      IsOrdered-IsSorted later (λ a b c. later_time_trans a.start_time b.start_time c.start_time)
        (order_by later rows)
        (order_by-IsSorted later (λ a b. later_time_total a.start_time b.start_time) rows) in
    record {
      none_running = λ e.
          sym (any-select_self (live device_id) db.roast_sessions)
          ∙ sym (any-order_by (live device_id) later rows)
          ∙ none-first (live device_id) (order_by later rows) e;
      running = λ s e.
          first_of (λ r. live device_id r ≡ true) (order_by later rows) s e
            (All-order_by (λ r. live device_id r ≡ true) later rows
              (selected (live device_id) db.roast_sessions));
      latest = λ s e.
          sym (any-select (live device_id) (λ r. not (later s r)) db.roast_sessions)
          ∙ sym (any-order_by (λ r. not (later s r)) later rows)
          ∙ latest-first (order_by later rows) s ordered e;
    }
