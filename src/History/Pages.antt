-- ===== src/History/Pages.antt =====
-- What a page of the history holds.
use mathlib.Core.List.{Memᴰ}
use rust_roast.Prelude.{
  ℕ, zero, suc, ◌-◌, ◌≤◌, min, String, str_eq, eq_iff, Bool, ◌&&◌, true, List, [], ◌∷◌, Option,
  some, ◌⊎◌, ◌∙◌, ◌≡◌, refl, arith, All, leb, select, take, length, Option-cases, subst, ap, inl,
  inr,
}
use rust_roast.Host.{Host}
use rust_roast.Tables.{order_by, keep_or}
use rust_roast.Tables.Sorted.{
  IsOrdered, IsOrdered-IsSorted, order_by-IsSorted, take-IsOrdered, present-IsOrdered, All-take,
  All-order_by, All-present,
}
use rust_roast.Sessions.Summary.{present, option_map}
use rust_roast.Tables.Members.{
  All-each, All-chosen, Mem-select, Mem-present, Mem-order_by, length-select-select,
  length-select-order_by, taken_or_full,
}
use rust_roast.Telemetry.{TelemetryRow, TelemetryService}
use rust_roast.History.{
  HistoryQuery, since_ts, row_limit, TelemetryItem, TelemetryHistoryResponse, wanted, newer, query,
  item_of, history, row_device, row_ts, row_payload, api_get_telemetry_history,
}

length-take : {A : Type 0} (n : ℕ) (xs : List A) → length (take n xs) ≤ n
length-take zero xs = omega arith
length-take (suc n) [] = omega arith
length-take (suc n) (x ∷ xs) = omega (arith, length-take n xs)

length-present :
    {A : Type 0} {B : Type 0} (f : A → Option B) (xs : List A) → length (present f xs) ≤ length xs
length-present f [] = omega arith
length-present f (x ∷ xs) = elim (Option-cases (f x)) [
  | inl e ↦ rw (present, e) (omega (arith, length-present f xs))
  | inr (b, e) ↦ rw (present, e) (omega (arith, length-present f xs))
]

module _ (h : Host) where
  open h use {Value, from_json}

  abbrev pub later : TelemetryItem Value → TelemetryItem Value → Bool
  later a b = leb b.ts a.ts

  -- A page of the history of a device, from a table whose rows have a device, a time and a payload.
  -- Every item is a row of the device that is not older than the request asks for, and a row that
  -- is missing is not newer than as many rows of the device as the page may hold.
  pub record IsPage {Row : Type 0} (device : Row → String) (ts : Row → ℕ) (payload : Row → String)
      (table : List Row) (device_id : String) (q : HistoryQuery) (now : ℕ)
      (page : TelemetryHistoryResponse Value) : Type 0 where
    pub named : page.device_id ≡ device_id
    pub counted : page.count ≡ length page.items
    pub bounded : (page.count ≤ 1000) × (page.count ≤ keep_or q.limit 200)
    pub ordered : IsOrdered later page.items
    pub sound :
        All
          (λ (i : TelemetryItem Value).
            (r : Row) × Memᴰ r table
            × (device r ≡ device_id)
            × (leb (now - keep_or q.since_secs 3600) (ts r) ≡ true)
            × (ts r ≡ i.ts)
            × (from_json (payload r) ≡ some i.telemetry))
          page.items
    pub complete :
        (r : Row) (val : Value)
        → Memᴰ r table
        → device r ≡ device_id
        → leb (now - keep_or q.since_secs 3600) (ts r) ≡ true
        → from_json (payload r) ≡ some val
        → Memᴰ (record { ts = ts r; telemetry = val }) page.items
          ⊎ (min (keep_or q.limit 200) 1000
              ≤ length (select (λ x. str_eq (device x) device_id && leb (ts r) (ts x)) table))

  module _ {Row : Type 0} (device : Row → String) (ts : Row → ℕ) (payload : Row → String) where
    abbrev rows : List Row → String → HistoryQuery → ℕ → List Row
    rows table device_id q now =
        query h device ts payload table device_id (since_ts q now) (row_limit q)

    abbrev item : Row → Value → TelemetryItem Value
    item r val = record { ts = ts r; telemetry = val }

    item_of-lem :
        (r : Row) (i : TelemetryItem Value)
        → item_of h device ts payload r ≡ some i
        → (ts r ≡ i.ts) × (from_json (payload r) ≡ some i.telemetry)
    item_of-lem r i e = elim (Option-cases (from_json (payload r))) [
      | inl f ↦ ground arith
      | inr (val, f) ↦
          let found : some (item r val) ≡ some i =
            subst (λ o. option_map (item r) o ≡ some i) f e in
          let same : item r val ≡ i = cc in
          (
            ap (λ (x : TelemetryItem Value). x.ts) same,
            f ∙ ap (λ (x : TelemetryItem Value). some x.telemetry) same,
          )
    ]

    -- A row of the table that the request asks for.
    abbrev IsWanted : List Row → String → HistoryQuery → ℕ → Row → Type 0
    IsWanted table device_id q now r =
        Memᴰ r table × (wanted h device ts payload device_id (since_ts q now) r ≡ true)

    rows-IsWanted :
        (table : List Row) (device_id : String) (q : HistoryQuery) (now : ℕ)
        → All (IsWanted table device_id q now) (rows table device_id q now)
    unfolding query
    rows-IsWanted table device_id q now =
        let asked = wanted h device ts payload device_id (since_ts q now) in
        let chosen : List Row = select asked table in
        let fits : Row → Type 0 = IsWanted table device_id q now in
        All-take fits (row_limit q) (order_by (newer h device ts payload) chosen) (
          All-order_by fits (newer h device ts payload) chosen
            (All-chosen (λ r. Memᴰ r table) asked table (All-each _ table (λ r m. m))))

    rows_complete :
        (table : List Row) (device_id : String) (q : HistoryQuery) (now : ℕ) (r : Row)
        → IsWanted table device_id q now r
        → Memᴰ r (rows table device_id q now)
          ⊎ (row_limit q
              ≤ length (select (λ x. str_eq (device x) device_id && leb (ts r) (ts x)) table))
    unfolding query
    rows_complete table device_id q now r v =
        let asked = wanted h device ts payload device_id (since_ts q now) in
        let chosen : List Row = select asked table in
        let before : Row → Row → Bool = newer h device ts payload in
        elim (taken_or_full before (row_limit q) r (order_by before chosen) (ground arith)
          (IsOrdered-IsSorted before (λ a b c e f. ground arith) (order_by before chosen)
            (order_by-IsSorted before (λ a b e. ground arith) chosen))
          (Mem-order_by before r chosen (Mem-select asked r table v.0 v.1))) [
            | inl m ↦ inl m
            | inr k ↦ inr (
                omega (
                  arith,
                  k,
                  length-select-order_by before (λ x. before x r) chosen,
                  length-select-select (λ x. before x r) asked
                      (λ x. str_eq (device x) device_id && leb (ts r) (ts x))
                      (λ x e f. ground arith) table,
                ))
          ]

    rows-IsOrdered :
        (table : List Row) (device_id : String) (q : HistoryQuery) (now : ℕ)
        → IsOrdered (newer h device ts payload) (rows table device_id q now)
    unfolding query
    rows-IsOrdered table device_id q now =
        let chosen : List Row =
          select (wanted h device ts payload device_id (since_ts q now)) table in
        let before : Row → Row → Bool = newer h device ts payload in
        take-IsOrdered before (row_limit q) (order_by before chosen) (
          IsOrdered-IsSorted before (λ a b c e f. ground arith) (order_by before chosen)
            (order_by-IsSorted before (λ a b e. ground arith) chosen))

    newer_items :
        (a b : Row) (c d : TelemetryItem Value)
        → item_of h device ts payload a ≡ some c
        → item_of h device ts payload b ≡ some d
        → newer h device ts payload a b ≡ true
        → later c d ≡ true
    newer_items a b c d e f k =
        subst (λ t. leb d.ts t ≡ true) (item_of-lem a c e).0
          (subst (λ t. leb t (ts a) ≡ true) (item_of-lem b d f).0 k)

    short :
        (table : List Row) (device_id : String) (q : HistoryQuery) (now : ℕ)
        → (length (present (item_of h device ts payload) (rows table device_id q now)) ≤ 1000)
          × (length (present (item_of h device ts payload) (rows table device_id q now))
              ≤ keep_or q.limit 200)
    unfolding query
    short table device_id q now =
        let chosen : List Row =
          order_by (newer h device ts payload)
            (select (wanted h device ts payload device_id (since_ts q now)) table) in
        omega (
          arith,
          length-present (item_of h device ts payload) (take (row_limit q) chosen),
          length-take (row_limit q) chosen,
        )

    history-IsPage :
        (table : List Row) (device_id : String) (q : HistoryQuery) (now : ℕ)
        → IsPage device ts payload table device_id q now
            (history h device ts payload table device_id q now)
    unfolding history
    history-IsPage table device_id q now = record {
      named = refl;
      counted = refl;
      bounded = short table device_id q now;
      ordered =
          present-IsOrdered (newer h device ts payload) later (item_of h device ts payload)
            (λ a b c d e f k. newer_items a b c d e f k) (rows table device_id q now)
            (rows-IsOrdered table device_id q now);
      sound =
          All-present (IsWanted table device_id q now) _ (item_of h device ts payload)
            (λ r i e v. (
              r,
              v.0,
              ground (arith, eq_iff (device r) device_id),
              ground arith,
              (item_of-lem r i e).0,
              (item_of-lem r i e).1,
            ))
            (rows table device_id q now) (rows-IsWanted table device_id q now);
      complete = λ r val m e k f.
          elim (rows_complete table device_id q now r
            (m, ground (arith, eq_iff (device r) device_id))) [
              | inl n ↦ inl (
                  Mem-present (item_of h device ts payload) r (item r val)
                    (rows table device_id q now) n (rw f refl))
              | inr n ↦ inr n
            ];
    }

  -- The telemetry history of a device, for any table and any request. It bears the name of the
  -- device, and the count is the number of its items: at most a thousand, and at most the limit of
  -- the request, which is 200 if it has none. Every item is the time and the payload of a row of
  -- that device that is not older than the request asks for, which is an hour if it does not say,
  -- and each comes before those that are older. Such a row whose payload is JSON is missing only if
  -- the device has as many rows that are not older than it as the page may hold.
  pub api_get_telemetry_history-IsPage :
      (s : TelemetryService h) (device_id : String) (q : HistoryQuery) (now : ℕ)
      → IsPage
          (λ (r : TelemetryRow h). r.device_id)
          (λ (r : TelemetryRow h). r.ts)
          (λ (r : TelemetryRow h). r.payload)
          s.telemetry
          device_id
          q
          now
          (api_get_telemetry_history h s device_id q now)
  unfolding api_get_telemetry_history
  api_get_telemetry_history-IsPage s device_id q now =
      history-IsPage (row_device h) (row_ts h) (row_payload h) s.telemetry device_id q now
