-- ===== src/Devices/Integrity/Rows.antt =====
-- Each operation of the service keeps the device tables linked.
use rust_roast.Prelude.{
  ℕ, String, true, List, [], ◌∷◌, ◌++◌, Option, none, some, ◌≡◌, refl, sym, subst, ◌∙◌, Bool-cases,
  Option-cases, inl, inr, All-impl, find, any,
}
use rust_roast.Host.{Host}
use rust_roast.Models.DeviceStatus.{DeviceStatus}
use rust_roast.Models.DeviceRows.{
  Device, CreateDeviceRequest, UpdateDeviceRequest, DeviceProfile, CreateDeviceProfileRequest,
  UpdateDeviceProfileRequest,
}
use rust_roast.Tables.{
  update_rows, keyed, Unique, Unique-append, Unique-update_rows, any-append_left, any-update_rows,
  or_else,
}
use rust_roast.Devices.{
  Db, device_key, device_name, profile_key, profile_known, create_device, discovered, update_device,
  updated, no_fields, update_last_seen, seen, update_device_status, with_status,
}
use rust_roast.Devices.Profiles as Profiles
use rust_roast.Devices.Integrity.{IsLinked, known_profile, append-IsLinked, update_devices-IsLinked}

module _ (h : Host) where
  open h use {F64, Value}

  known_same :
      (db : Db h) (d : Device)
      → known_profile h db.device_profiles d ≡ profile_known h db d.profile_id
  known_same db d = elim (Option-cases d.profile_id) [ inl e ↦ rw e refl | inr (id, e) ↦ rw e refl ]

  pub create_device-IsLinked :
      (db : Db h) (req : CreateDeviceRequest) (id : String) (now : ℕ)
      → IsLinked h db
      → IsLinked h (create_device h db req id now).1
  unfolding create_device
  create_device-IsLinked db req id now v =
      elim (Bool-cases (any (keyed device_key id) db.devices)) [
        | inl e ↦ rw e v
        | inr e ↦ elim (Bool-cases (any (keyed device_name req.device_id) db.devices)) [
          | inl f ↦ rw (e, f) v
          | inr f ↦ elim (Bool-cases (profile_known h db req.profile_id)) [
            | inr k ↦ rw (e, f, k) v
            | inl k ↦
                rw (e, f, k)
                  (append-IsLinked h db (discovered req id now) v e f
                    (known_same db (discovered req id now) ∙ k))
          ]
        ]
      ]

  known_or_else :
      (db : Db h) (new old : Option String)
      → profile_known h db new ≡ true
      → profile_known h db old ≡ true
      → profile_known h db (or_else new old) ≡ true
  known_or_else db none old e f = f
  known_or_else db (some a) old e f = e

  pub update_device-IsLinked :
      (db : Db h) (id : String) (req : UpdateDeviceRequest) (now : ℕ)
      → IsLinked h db
      → IsLinked h (update_device h db id req now).1
  unfolding update_device
  update_device-IsLinked db id req now v =
      elim (Option-cases (find (keyed device_key id) db.devices)) [
        | inl e ↦ rw (update_device, e) v
        | inr (d, e) ↦ elim (Bool-cases (no_fields req)) [
          | inl f ↦ rw (update_device, e, f) v
          | inr f ↦ elim (Bool-cases (profile_known h db req.profile_id)) [
            | inr k ↦ rw (update_device, e, f, k) v
            | inl k ↦
                rw (update_device, e, f, k)
                  (update_devices-IsLinked h db (keyed device_key id) (updated req now) (λ d. refl)
                    (λ d. refl)
                    (λ d g.
                      known_same db (updated req now d)
                      ∙ known_or_else db req.profile_id d.profile_id k (sym (known_same db d) ∙ g))
                    v)
          ]
        ]
      ]

  -- A status and a time of contact are no keys.
  pub update_device_status-IsLinked :
      (db : Db h) (id : String) (status : DeviceStatus) (now : ℕ)
      → IsLinked h db
      → IsLinked h (update_device_status h db id status now).1
  unfolding update_device_status
  update_device_status-IsLinked db id status now v =
      update_devices-IsLinked h db (keyed device_key id) (with_status status now) (λ d. refl)
        (λ d. refl) (λ d e. e) v

  pub update_last_seen-IsLinked :
      (db : Db h) (device_id : String) (now : ℕ)
      → IsLinked h db
      → IsLinked h (update_last_seen h db device_id now)
  unfolding update_last_seen
  update_last_seen-IsLinked db device_id now v =
      update_devices-IsLinked h db (keyed device_name device_id) (seen now) (λ d. refl) (λ d. refl)
        (λ d e. e) v

  -- Profiles under which every device finds its profile again.
  with_profiles-IsLinked :
      (db : Db h) (profiles : List (DeviceProfile F64))
      → Unique (profile_key h) profiles
      → ((k : String)
          → any (keyed (profile_key h) k) db.device_profiles ≡ true
          → any (keyed (profile_key h) k) profiles ≡ true)
      → IsLinked h db
      → IsLinked h (record db { device_profiles = profiles })
  with_profiles-IsLinked db profiles u kept v = record {
    ids = v.ids;
    names = v.names;
    profile_ids = u;
    connection_ids = v.connection_ids;
    connections = v.connections;
    registers = v.registers;
    profiles =
        All-impl (λ (d : Device). known_profile h db.device_profiles d ≡ true)
          (λ (d : Device). known_profile h profiles d ≡ true) (λ d e. known_kept d kept e)
          db.devices v.profiles;
  }
    where
      known_kept :
          (d : Device)
          → ((k : String)
              → any (keyed (profile_key h) k) db.device_profiles ≡ true
              → any (keyed (profile_key h) k) profiles ≡ true)
          → known_profile h db.device_profiles d ≡ true
          → known_profile h profiles d ≡ true
      known_kept d kept e = elim (Option-cases d.profile_id) [
        | inl f ↦ rw f refl
        | inr (id, f) ↦
            rw f (kept id (subst (λ o. profile_known h db o ≡ true) f (sym (known_same db d) ∙ e)))
      ]

  pub create_profile-IsLinked :
      (db : Db h) (req : CreateDeviceProfileRequest F64) (id : String) (now : ℕ)
      → IsLinked h db
      → IsLinked h (Profiles.create_profile h db req id now).1
  unfolding Profiles.create_profile
  create_profile-IsLinked db req id now v =
      let p : DeviceProfile F64 = Profiles.created h req id now in
      elim (Bool-cases (any (keyed (profile_key h) id) db.device_profiles)) [
        | inl e ↦ rw e v
        | inr e ↦ rw e (
            with_profiles-IsLinked db (db.device_profiles ++ p ∷ [])
              (Unique-append (profile_key h) db.device_profiles p v.profile_ids e)
              (λ k f. any-append_left (profile_key h) k db.device_profiles p f) v)
      ]

  pub update_profile-IsLinked :
      (db : Db h) (id : String) (req : UpdateDeviceProfileRequest F64) (now : ℕ)
      → IsLinked h db
      → IsLinked h (Profiles.update_profile h db id req now).1
  unfolding Profiles.update_profile
  update_profile-IsLinked db id req now v =
      with_profiles-IsLinked db
        (update_rows (keyed (profile_key h) id) (Profiles.merged h req now) db.device_profiles)
        (Unique-update_rows (profile_key h) (keyed (profile_key h) id) (Profiles.merged h req now)
          (λ p. refl) db.device_profiles v.profile_ids)
        (λ k e.
          any-update_rows (profile_key h) (keyed (profile_key h) id) (Profiles.merged h req now)
            (λ p. refl) k db.device_profiles
          ∙ e)
        v
