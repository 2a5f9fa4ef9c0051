-- ===== src/RegisterMaps/Replacement.antt =====
-- What a replacement of a register map leaves in the table.
use rust_roast.Prelude.{
  String, false, not, List, [], ◌∷◌, ◌++◌, map, none, some, ap, Option-cases, Result, ok, err, ◌≡◌,
  ◌≢◌, refl, sym, ◌∙◌, arith, str_eq, str_eq_refl, str_eq_ne, if◌then◌else◌, select, any,
  Bool-cases, Result-cases, All, inl, inr, append_assoc, append-nil,
}
use rust_roast.Tables.Owned as Owned
use rust_roast.Models.DeviceRows.{CreateRegisterMapEntry, ModbusRegisterMap}
use rust_roast.RegisterMaps.{Db, row_of, of_device, has_key, insert_registers, set_register_map}

module _ (F64 : Type 0) where
  -- The row of an entry, column by column.
  abbrev pub entry_row : String → CreateRegisterMapEntry F64 × String → ModbusRegisterMap F64
  entry_row d (entry, id) = record {
    id = id;
    device_id = d;
    register_type = entry.register_type;
    address = entry.address;
    name = entry.name;
    data_type = entry.data_type;
    byte_order = entry.byte_order;
    scale_factor = entry.scale_factor;
    offset = entry.offset;
    unit = entry.unit;
    description = entry.description;
    writable = elim entry.writable [ none ↦ false | some b ↦ b ];
  }

  row_of-entry_row :
      (d : String) (e : CreateRegisterMapEntry F64 × String) → row_of F64 d e ≡ entry_row d e
  row_of-entry_row d (entry, id) = elim (Option-cases entry.writable) [
    | inl e ↦ rw e refl
    | inr (b, e) ↦ rw e refl
  ]

  entry_rows :
      (d : String) (entries : List (CreateRegisterMapEntry F64 × String))
      → map (row_of F64 d) entries ≡ map (entry_row d) entries
  entry_rows d [] = refl
  entry_rows d (e ∷ entries) =
      ap (λ r. r ∷ map (row_of F64 d) entries) (row_of-entry_row d e)
      ∙ ap (λ rs. entry_row d e ∷ rs) (entry_rows d entries)

  -- The outcome of a replacement: on success the rows of the device are the new ones, in their
  -- order, and are the answer; on an error the tables are as they were; and the rows of any other
  -- device are the same either way.
  pub record IsReplacement (db : Db F64) (d : String)
      (entries : List (CreateRegisterMapEntry F64 × String))
      (r : Result String (List (ModbusRegisterMap F64)) × Db F64) : Type 0 where
    pub answered :
        (rows : List (ModbusRegisterMap F64)) → r.0 ≡ ok rows → rows ≡ map (entry_row d) entries
    pub stored :
        (rows : List (ModbusRegisterMap F64))
        → r.0 ≡ ok rows
        → select (λ (x : ModbusRegisterMap F64). str_eq x.device_id d) r.1.modbus_register_maps
          ≡ rows
    pub rolled_back : (e : String) → r.0 ≡ err e → r.1 ≡ db
    pub others :
        (e : String)
        → e ≢ d
        → select (λ (x : ModbusRegisterMap F64). str_eq x.device_id e) r.1.modbus_register_maps
          ≡ select (λ (x : ModbusRegisterMap F64). str_eq x.device_id e) db.modbus_register_maps

  insert_registers-appends :
      (ids : List String) (d : String) (entries : List (CreateRegisterMapEntry F64 × String))
      (table : List (ModbusRegisterMap F64)) {table' : List (ModbusRegisterMap F64)}
      → insert_registers F64 ids d entries table ≡ ok table'
      → table' ≡ table ++ map (row_of F64 d) entries
  unfolding insert_registers
  insert_registers-appends ids d [] table e = cc (e, append-nil table)
  insert_registers-appends ids d ((entry, id) ∷ entries) table e =
      elim (Bool-cases (any (has_key F64 id) table)) [
        | inl k ↦ ground arith
        | inr k ↦ elim (Bool-cases (any (str_eq d) ids)) [
          | inr f ↦ ground arith
          | inl f ↦
              insert_registers-appends ids d entries (table ++ row_of F64 d (entry, id) ∷ [])
                (ground arith)
              ∙ append_assoc table (row_of F64 d (entry, id) ∷ []) (map (row_of F64 d) entries)
        ]
      ]

  new_rows :
      (d : String) (entries : List (CreateRegisterMapEntry F64 × String))
      → All (λ (r : ModbusRegisterMap F64). r.device_id ≡ d) (map (row_of F64 d) entries)
  new_rows d [] = tt
  new_rows d (entry ∷ entries) = (refl, new_rows d entries)

  abbrev kept_rows : Db F64 → String → List (ModbusRegisterMap F64)
  kept_rows db d = select (λ r. not (of_device F64 d r)) db.modbus_register_maps

  -- The rows of a device after the deletion and the inserts.
  select-replaced :
      (db : Db F64) (d e : String) (entries : List (CreateRegisterMapEntry F64 × String))
      → select (of_device F64 e) (kept_rows db d ++ map (row_of F64 d) entries) ≡ (
          if str_eq d e
          then map (row_of F64 d) entries
          else select (of_device F64 e) db.modbus_register_maps)
  select-replaced db d e entries =
      Owned.select-replaced (λ (r : ModbusRegisterMap F64). r.device_id) db.modbus_register_maps d e
        (map (row_of F64 d) entries) (new_rows d entries)

  -- A replacement of the register map of a device. If it succeeds, the rows of the device are
  -- those of the request in its order, each with its columns and not writable unless the request
  -- says so; nothing of the old map is left, and they are the answer. If an insert fails, the tables are as they were. The rows of any other device are the same either
  -- way.
  pub set_register_map-replaces :
      (db : Db F64) (d : String) (entries : List (CreateRegisterMapEntry F64 × String))
      → IsReplacement db d entries (set_register_map F64 db d entries)
  unfolding set_register_map
  set_register_map-replaces db d entries =
      elim (Result-cases (insert_registers F64 db.device_ids d entries (kept_rows db d))) [
        | inl (m, f) ↦
            rw (set_register_map, f)
              (record {
                answered = λ rows k. cc;
                stored = λ rows k. cc;
                rolled_back = λ e k. refl;
                others = λ e ne. refl;
              })
        | inr (table, f) ↦
            let whole = insert_registers-appends db.device_ids d entries (kept_rows db d) f in
            rw (set_register_map, f, whole)
              (record {
                answered = λ rows k.
                    let same : rows ≡ map (row_of F64 d) entries = cc in
                    same ∙ entry_rows d entries;
                stored = λ rows k. select-replaced db d d entries ∙ rw (str_eq_refl d) (cc k);
                rolled_back = λ e k. cc;
                others = λ e ne.
                    select-replaced db d e entries ∙ rw (str_eq_ne d e (λ k. ne (sym k))) refl;
              })
      ]
