-- ===== src/Ocpp/Authorize/Known.antt =====
-- Which tags are authorized: `handle` of v16/handlers/authorize.handler.ts.
use nest_js_project.Prelude.{
  ℕ, ◌≡◌, ◌⊎◌, inl, inr, refl, ap, Bool, Bool-cases, Option-cases, true, false, ◌&&◌, Option, none,
  some, List, [], ◌∷◌, String, ◌===◌, ◌==◌, find_one, holds_text, filled, get_or_else, eq_of_beq,
  eq_of_text_beq, find_one-test, subst, arith,
}
use nest_js_project.Prelude.Text.{starts_with, second_part}
use nest_js_project.Schema.{ChargingSession, Charger, RfidTag, Vehicle, Database}
use nest_js_project.Ocpp.Runtime.{Runtime}
use nest_js_project.Ocpp.Start.Frame.{session_prefix}
use nest_js_project.Ocpp.Start.Rfid.{rfid_tag_of}
use nest_js_project.Ocpp.Start.Vid.{vehicle_of}
use nest_js_project.Ocpp.Authorize.{
  AuthorizeMessage, AuthorizeStatus, expired_on, is_session_of, authorize_session, has_any_feature,
  authorize_vehicle, authorize_rfid, authorize_at, authorize_tag, handle,
}

-- Some element of the list has the property.
abbrev pub Any : {A : Type 0} → (A → Type 0) → List A → Type 0
Any P [] = ⊥
Any P (x ∷ xs) = P x ⊎ Any P xs

-- What a query finds is in the table.
find_one-Any :
    {A : Type 0} (P : A → Type 0) (test : A → Bool) (rows : List A) (r : A)
    → find_one test rows ≡ some r
    → P r
    → Any P rows
find_one-Any P test [] r h p = absurd (cc)
find_one-Any P test (x ∷ xs) r h p = elim (Bool-cases (test x)) [
  | inl hit ↦ inl (subst P (ground (arith, hit, h)) p)
  | inr miss ↦ inr (find_one-Any P test xs r (ground (arith, miss, h)) p)
]

both : (a b : Bool) → a && b ≡ true → (a ≡ true) × (b ≡ true)
both true b h = (refl, h)
both false b h = absurd (cc)

text_held : (o : Option String) (t : String) → holds_text o (some t) ≡ true → o ≡ some t
text_held none t h = absurd (cc)
text_held (some s) t h = ap some (eq_of_text_beq s t h)

abbrev is_accepted : AuthorizeStatus → Bool
is_accepted AuthorizeStatus.accepted = true
is_accepted _ = false

module _ {W : Type 0} where
  -- A session that was booked under the tag with the charger's client.
  abbrev pub IsBookedAs : String → ℕ → ChargingSession W → Type 0
  IsBookedAs id_tag client_id s = (s.session_id ≡ some id_tag) × (s.client_id ≡ client_id)

  -- A vehicle of the charger's client with the number, which charges by itself.
  abbrev pub IsEnrolled : String → ℕ → Vehicle W → Type 0
  IsEnrolled vid client_id v =
      (v.vin_number ≡ some vid) × (v.auto_charge ≡ true) × (v.client_id ≡ client_id)

  -- A tag of the charger's client whose last day is not over.
  abbrev pub IsIssued : Runtime → String → ℕ → RfidTag W → Type 0
  IsIssued rt id_tag client_id t =
      (t.rf_id_tag ≡ id_tag) × (t.client_id ≡ client_id) × (expired_on rt t.expiry_date ≡ false)

  -- What a charger's client knows of a tag.
  abbrev pub Knows : Runtime → Database W → String → Charger → Type 0
  Knows rt db id_tag charger =
      Any (IsBookedAs id_tag charger.client_id) db.charging_sessions
      ⊎ ((has_any_feature db charger.vendor_id ≡ true)
          × Any (IsEnrolled (get_or_else (second_part id_tag) "") charger.client_id) db.vehicles)
      ⊎ Any (IsIssued rt id_tag charger.client_id) db.rfid_tags

  accepts-session :
      (rt : Runtime) (db : Database W) (uuid id_tag : String) (charger : Charger)
      → is_accepted (authorize_session db uuid charger id_tag).status ≡ true
      → Knows rt db id_tag charger
  unfolding authorize_session
  accepts-session rt db uuid id_tag charger h =
      let test = is_session_of id_tag charger.client_id in
      elim (Option-cases (find_one test db.charging_sessions)) [
        | inl gone ↦ absurd (cc)
        | inr (s, found) ↦
            let (name, client) =
              both (holds_text s.session_id (some id_tag)) (s.client_id == charger.client_id)
                (find_one-test test db.charging_sessions s found) in
            inl (
              find_one-Any (IsBookedAs id_tag charger.client_id) test db.charging_sessions s found (
                text_held s.session_id id_tag name,
                eq_of_beq s.client_id charger.client_id client,
              ))
      ]

  enrolled :
      (db : Database W) (vid : String) (client_id : ℕ) (v : Vehicle W)
      → vehicle_of db vid (some client_id) ≡ some v
      → Any (IsEnrolled vid client_id) db.vehicles
  enrolled db vid client_id v found =
      let test = λ (v : Vehicle W).
        holds_text v.vin_number (some vid) && v.auto_charge && (v.client_id == client_id) in
      let (first, client) =
        both (holds_text v.vin_number (some vid) && v.auto_charge) (v.client_id == client_id)
          (find_one-test test db.vehicles v found) in
      let (name, charges) = both (holds_text v.vin_number (some vid)) v.auto_charge first in
      find_one-Any (IsEnrolled vid client_id) test db.vehicles v found
        (text_held v.vin_number vid name, charges, eq_of_beq v.client_id client_id client)

  accepts-vehicle :
      (rt : Runtime) (db : Database W) (uuid id_tag : String) (charger : Charger)
      → is_accepted (authorize_vehicle db uuid charger (second_part id_tag)).status ≡ true
      → Knows rt db id_tag charger
  accepts-vehicle rt db uuid id_tag charger h =
      let vid = get_or_else (second_part id_tag) "" in
      elim (Bool-cases (filled (second_part id_tag))) [
        | inl given ↦ elim (Bool-cases (has_any_feature db charger.vendor_id)) [
          | inl granted ↦ elim (Option-cases (vehicle_of db vid (some charger.client_id))) [
            | inl gone ↦ absurd (cc)
            | inr (v, found) ↦ inr (inl (granted, enrolled db vid charger.client_id v found))
          ]
          | inr refused ↦ absurd (cc)
        ]
        | inr missing ↦ absurd (cc)
      ]

  accepts-tag :
      (rt : Runtime) (db : Database W) (uuid id_tag : String) (charger : Charger)
      → is_accepted
          (authorize_rfid rt db uuid (rfid_tag_of db id_tag (some charger.client_id))).status
        ≡ true
      → Knows rt db id_tag charger
  accepts-tag rt db uuid id_tag charger h =
      let test =
        λ (t : RfidTag W). (t.rf_id_tag === id_tag) && (t.client_id == charger.client_id) in
      elim (Option-cases (rfid_tag_of db id_tag (some charger.client_id))) [
        | inl gone ↦ absurd (cc)
        | inr (t, found) ↦ elim (Bool-cases (expired_on rt t.expiry_date)) [
          | inl over ↦ absurd (cc)
          | inr runs ↦
              let (name, client) =
                both (t.rf_id_tag === id_tag) (t.client_id == charger.client_id)
                  (find_one-test test db.rfid_tags t found) in
              inr (
                inr (
                  find_one-Any (IsIssued rt id_tag charger.client_id) test db.rfid_tags t found (
                    eq_of_text_beq t.rf_id_tag id_tag name,
                    eq_of_beq t.client_id charger.client_id client,
                    runs,
                  )))
        ]
      ]

  accepts-at :
      (rt : Runtime) (db : Database W) (uuid id_tag : String) (charger : Charger)
      → is_accepted (authorize_at rt db uuid id_tag (some charger)).status ≡ true
      → Knows rt db id_tag charger
  unfolding authorize_at
  accepts-at rt db uuid id_tag charger =
      let prefix = session_prefix db (some charger.client_id) in
      elim (Bool-cases (starts_with id_tag prefix)) [
        | inl booked ↦ rw booked (accepts-session rt db uuid id_tag charger)
        | inr other ↦ elim (Bool-cases (starts_with id_tag "VID")) [
          | inl vehicle ↦ rw (other, vehicle) (accepts-vehicle rt db uuid id_tag charger)
          | inr tag ↦ rw (other, tag) (accepts-tag rt db uuid id_tag charger)
        ]
      ]

  -- A tag is authorized at a charger only if the charger is there and its client knows the tag: as the
  -- code of a booked session, as the number of a vehicle that charges by itself, where the charger's
  -- vendor has some feature, or as an issued tag whose last day is not over.
  pub authorized_tag_is_known :
      (rt : Runtime) (db : Database W) (msg : AuthorizeMessage) (charger_id : String)
      → (handle rt db msg charger_id).status ≡ AuthorizeStatus.accepted
      → (id_tag : String) × (msg.id_tag ≡ some id_tag)
        × ((charger : Charger) × (find_one (λ c. c.charger_id === charger_id) db.chargers
              ≡ some charger)
            × Knows rt db id_tag charger)
  unfolding handle authorize_tag authorize_at
  authorized_tag_is_known rt db msg charger_id h = elim (Option-cases msg.id_tag) [
    | inl none_sent ↦ absurd (cc)
    | inr (id_tag, sent) ↦ elim (Bool-cases (filled (some id_tag))) [
      | inl given ↦ elim (Option-cases (find_one (λ c. c.charger_id === charger_id) db.chargers)) [
        | inl gone ↦ absurd (cc)
        | inr (charger, there) ↦
            (id_tag, sent, (charger, there, accepts-at rt db msg.uuid id_tag charger (cc)))
      ]
      | inr missing ↦ absurd (cc)
    ]
  ]
