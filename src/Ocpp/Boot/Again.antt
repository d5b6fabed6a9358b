-- ===== src/Ocpp/Boot/Again.antt =====
-- apps/ocpp-gateway/src/v16/handlers/boot-notification.handler.ts: a charger that boots once more.
use nest_js_project.Prelude.{
  ℕ, ◌≡◌, refl, ap, ◌∙◌, Bool, true, false, ◌&&◌, Bool-cases, Option-cases, inl, inr, Option, none,
  some, List, [], ◌∷◌, ◌++◌, String, ◌===◌, ◌==◌, beq_self, text_beq_self, filled, find_one,
  update_where, find_one-update_where, find_one-append,
}
use nest_js_project.Schema.{Charger, ChargerStatus, ChargerSpecification, Database}
use nest_js_project.Ocpp.Boot.{
  Specifications, BootRuntime, BootMessage, is_changed, updated, has_updates, set_updates,
  new_specification_row, on_specification, record_specifications, activate, booted, handle,
}

right_false : (b : Bool) → b && false ≡ false
right_false true = refl
right_false false = refl

unchanged_self : (new : Option String) → is_changed new new ≡ false
unchanged_self none = refl
unchanged_self (some s) = rw (text_beq_self s) (right_false (filled (some s)))

unchanged_updated : (new old : Option String) → is_changed new (updated new old old) ≡ false
unchanged_updated new old = elim (Bool-cases (is_changed new old)) [
  | inl changed ↦ rw changed (unchanged_self new)
  | inr same ↦ rw (same, same) refl
]

update_where-twice :
    {A : Type 0} (p : A → Bool) (set : A → A)
    → ((r : A) → set (set r) ≡ set r)
    → ((r : A) → p (set r) ≡ p r)
    → (rs : List A) → update_where p set (update_where p set rs) ≡ update_where p set rs
update_where-twice p set again keep [] = refl
update_where-twice p set again keep (r ∷ rs) = elim (Bool-cases (p r)) [
  | inl hit ↦ rw (hit, keep r, hit, again r, update_where-twice p set again keep rs) refl
  | inr miss ↦ rw (miss, miss, update_where-twice p set again keep rs) refl
]

settled :
    (new : Specifications) (old : ChargerSpecification)
    → has_updates new (set_updates new old old) ≡ false
unfolding has_updates set_updates
settled new old =
    rw
      (
        unchanged_updated new.charge_point_vendor old.vendor_name,
        unchanged_updated new.charge_point_model old.model,
        unchanged_updated new.charge_box_serial_number old.serial,
        unchanged_updated new.firmware_version old.firmware_version,
        unchanged_updated new.charge_point_serial_number old.cp_serial,
        unchanged_updated new.iccid old.iccid,
        unchanged_updated new.imsi old.imsi,
        unchanged_updated new.meter_type old.meter_type,
        unchanged_updated new.meter_serial_number old.meter_serial_number,
      )
      refl

settled_new :
    (rt : BootRuntime) (new : Specifications) (charger_id : String) (charger_ref : ℕ)
    → has_updates new (new_specification_row rt new charger_id charger_ref) ≡ false
unfolding has_updates new_specification_row
settled_new rt new charger_id charger_ref =
    rw
      (
        unchanged_self new.charge_point_vendor,
        unchanged_self new.charge_point_model,
        unchanged_self new.charge_box_serial_number,
        unchanged_self new.firmware_version,
        unchanged_self new.charge_point_serial_number,
        unchanged_self new.iccid,
        unchanged_self new.imsi,
        unchanged_self new.meter_type,
        unchanged_self new.meter_serial_number,
      )
      refl

abbrev at_charger : ℕ → List ChargerSpecification → Option ChargerSpecification
at_charger charger_ref = find_one (λ r. r.charger_ref == charger_ref)

-- Nothing is written where the row that is found has nothing new.
no_updates :
    (rt : BootRuntime) (new : Specifications) (charger_id : String) (charger_ref : ℕ)
    (rows : List ChargerSpecification) (row : ChargerSpecification)
    → at_charger charger_ref rows ≡ some row
    → has_updates new row ≡ false
    → record_specifications rt new charger_id charger_ref rows ≡ rows
unfolding record_specifications
no_updates rt new charger_id charger_ref rows row found same = rw (found, same) refl

on_specification-again :
    (rt later : BootRuntime) (new : Specifications) (charger_id : String) (charger_ref : ℕ)
    (rows : List ChargerSpecification) (found : Option ChargerSpecification)
    → at_charger charger_ref rows ≡ found
    → record_specifications later new charger_id charger_ref
        (on_specification rt new charger_id charger_ref rows found)
      ≡ on_specification rt new charger_id charger_ref rows found
unfolding set_updates new_specification_row
on_specification-again rt later new charger_id charger_ref rows none absent =
    let row = new_specification_row rt new charger_id charger_ref in
    no_updates later new charger_id charger_ref (rows ++ row ∷ []) row
      (find_one-append (λ r. r.charger_ref == charger_ref) rows (row ∷ []) absent
        ∙ rw (beq_self charger_ref) refl)
      (settled_new rt new charger_id charger_ref)
on_specification-again rt later new charger_id charger_ref rows (some old) found =
    elim (Bool-cases (has_updates new old)) [
      | inl changed ↦ rw changed (
          no_updates later new charger_id charger_ref
            (update_where (λ r. r.id == old.id) (set_updates new old) rows)
            (set_updates new old old)
            (find_one-update_where (λ r. r.charger_ref == charger_ref) (λ r. r.id == old.id)
                (set_updates new old) (λ r. refl) rows
              ∙ rw (found, beq_self old.id) refl)
            (settled new old))
      | inr same ↦ rw same (no_updates later new charger_id charger_ref rows old found same)
    ]

activate-twice :
    (id : ℕ) (chargers : List Charger) → activate id (activate id chargers) ≡ activate id chargers
unfolding activate
activate-twice id =
    update_where-twice (λ c. c.id == id) (λ c. record c { status = ChargerStatus.active })
      (λ c. refl) (λ c. refl)

charger_after :
    (charger_id : String) (chargers : List Charger) (charger : Charger)
    → find_one (λ c. c.charger_id === charger_id) chargers ≡ some charger
    → find_one (λ c. c.charger_id === charger_id) (activate charger.id chargers)
      ≡ some (record charger { status = ChargerStatus.active })
unfolding activate
charger_after charger_id chargers charger found =
    find_one-update_where (λ c. c.charger_id === charger_id) (λ c. c.id == charger.id)
      (λ c. record c { status = ChargerStatus.active }) (λ c. refl) chargers
    ∙ rw (found, beq_self charger.id) refl

module _ {W : Type 0} where
  booted-again :
      (rt later : BootRuntime) (db : Database W) (msg : BootMessage) (charger_id : String)
      (charger : Charger)
      → booted later
          (booted rt db msg charger_id charger)
          msg
          charger_id
          (record charger { status = ChargerStatus.active })
        ≡ booted rt db msg charger_id charger
  unfolding record_specifications
  booted-again rt later db msg charger_id charger =
      let new = msg.specifications in
      let rows = db.charger_specifications in
      ap
        (λ cs. record db {
          chargers = cs;
          charger_specifications =
              record_specifications later new charger_id charger.id
                (record_specifications rt new charger_id charger.id rows);
        })
        (activate-twice charger.id db.chargers)
      ∙ ap
          (λ ss. record db {
            chargers = activate charger.id db.chargers;
            charger_specifications = ss;
          })
          (on_specification-again rt later new charger_id charger.id rows
            (at_charger charger.id rows) refl)

  -- A charger that boots once more with the same message leaves the database as its first boot left
  -- it: no second row of specifications, and no column that changes again.
  pub boot_twice :
      (rt later : BootRuntime) (db : Database W) (msg : BootMessage) (charger_id : String)
      → (handle later (handle rt db msg charger_id).0 msg charger_id).0
        ≡ (handle rt db msg charger_id).0
  unfolding handle
  boot_twice rt later db msg charger_id =
      elim (Option-cases (find_one (λ c. c.charger_id === charger_id) db.chargers)) [
        | inl unknown ↦ rw (unknown, unknown) refl
        | inr (charger, found) ↦
            rw (found, charger_after charger_id db.chargers charger found)
              (booted-again rt later db msg charger_id charger)
      ]
