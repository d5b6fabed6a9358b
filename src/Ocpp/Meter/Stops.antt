-- ===== src/Ocpp/Meter/Stops.antt =====
-- When a reading makes the gateway ask the charger to stop: `handle` of
-- v16/handlers/meter-values.handler.ts.
use nest_js_project.Prelude.{
  ℕ, ◌+◌, ◌≡◌, refl, inl, inr, Bool, Bool-cases, true, false, ◌&&◌, not, Option, some, none, List,
  [], ◌∷◌, ◌++◌, String, if◌then◌else◌, ◌==◌, find_one, holds, beq_self, arith,
}
use nest_js_project.Schema.{DeviceTransaction, ChargingSession, User, Charger, Database}
use nest_js_project.Number.{Number, as_number}
use nest_js_project.Ocpp.Runtime.{Runtime}
use nest_js_project.Ocpp.Effect.{Effect, remote_stop, emit_to_room}
use nest_js_project.Store.{update_transaction, transaction_of, session_of}
use nest_js_project.Ocpp.Meter.Frame.{
  MeterSample, MeterMessage, MeterData, read_meter, is_transaction_begin,
}
use nest_js_project.Ocpp.Meter.Update.{record_reading, energy_reached, percentage_reached}
use nest_js_project.Ocpp.Meter.{
  is_ocpi, soc_push, push_to, push_soc, is_milestone, patch_at, patch_ocpi_session_on_meter_value,
  stop_if, on_reading, on_session, on_transaction, on_number, handle,
}

module _ {W : Type 0} where
  abbrev is_stop_of : ℕ → Effect W → ℕ
  is_stop_of n (remote_stop m) = if m == n then 1 else 0
  is_stop_of n _ = 0

  -- How often the calls ask for the stop of a transaction.
  abbrev pub stop_count : ℕ → List (Effect W) → ℕ
  stop_count n [] = 0
  stop_count n (e ∷ es) = is_stop_of n e + stop_count n es

  stop_count-append :
      (n : ℕ) (xs ys : List (Effect W))
      → stop_count n (xs ++ ys) ≡ stop_count n xs + stop_count n ys
  stop_count-append n [] ys = omega arith
  stop_count-append n (x ∷ xs) ys = omega (arith, stop_count-append n xs ys)

  counts_of_four :
      (n : ℕ) (a b c d : List (Effect W)) (x y : ℕ)
      → stop_count n a ≡ 0
      → stop_count n b ≡ 0
      → stop_count n c ≡ x
      → stop_count n d ≡ y
      → stop_count n (a ++ b ++ c ++ d) ≡ x + y
  counts_of_four n a b c d x y ha hb hc hd = omega (
    arith,
    stop_count-append n (a ++ b ++ c) d,
    stop_count-append n (a ++ b) c,
    stop_count-append n a b,
  )

  counts_with_none :
      (n : ℕ) (a b : List (Effect W)) (x : ℕ)
      → stop_count n a ≡ x
      → stop_count n b ≡ 0
      → stop_count n (a ++ b) ≡ x
  counts_with_none n a b x ha hb = omega (arith, stop_count-append n a b)

  abbrev pub reading_of : ℕ → List (MeterSample W) → MeterMessage W
  reading_of n samples = record { transaction_id = some n; sampled_values = samples }

abbrev pub one_if : Bool → ℕ
one_if true = 1
one_if false = 0

module _ {W : Type 0} ⦃num : Number W⦄ where
  push_to-no_stop :
      (n : ℕ) (db : Database W) (user : Option User) → stop_count {W = W} n (push_to user) ≡ 0
  push_to-no_stop n db none = refl
  push_to-no_stop n db (some u) = refl

  push_soc-no_stop :
      (n : ℕ) (db : Database W) (soc last : W) (user_id : Option ℕ)
      → stop_count n (push_soc db soc last user_id) ≡ 0
  push_soc-no_stop n db soc last none = refl
  push_soc-no_stop n db soc last (some user_id) =
      elim (Bool-cases (is_milestone soc && not (num.eq last soc))) [
        | inl now ↦ rw now (push_to-no_stop n db (find_one (λ u. u.id == user_id) db.users))
        | inr later ↦ rw later refl
      ]

  patch_at-no_stop :
      (n : ℕ) (db : Database W) (session : ChargingSession W) (dt : DeviceTransaction W)
      (charger : Option Charger)
      → stop_count n (patch_at db session dt charger) ≡ 0
  patch_at-no_stop n db session dt none = refl
  patch_at-no_stop n db session dt (some charger) = ground arith

  patch_if-no_stop :
      (n : ℕ) (db : Database W) (session : ChargingSession W) (dt : DeviceTransaction W) (b : Bool)
      → stop_count n (if b then patch_ocpi_session_on_meter_value db session dt else []) ≡ 0
  unfolding patch_ocpi_session_on_meter_value
  patch_if-no_stop n db session dt true =
      patch_at-no_stop n db session dt
        (find_one (λ c. holds (some c.id) session.charger_ref) db.chargers)
  patch_if-no_stop n db session dt false = refl

  stop_if-count :
      (reached : Bool) (reason : String) (n : ℕ) (dt : DeviceTransaction W)
      (session : ChargingSession W) (db : Database W)
      → stop_count n (stop_if reached reason n dt session db).1 ≡ one_if reached
  unfolding stop_if
  stop_if-count false reason n dt session db = refl
  stop_if-count true reason n dt session db = ground (arith, beq_self n)

  on_reading-count :
      (rt : Runtime) (db : Database W) (n : ℕ) (meter_data : MeterData W) (dt : DeviceTransaction W)
      (session : ChargingSession W)
      → stop_count n (on_reading rt db n meter_data dt session).1
        ≡ one_if (energy_reached meter_data dt) + one_if (percentage_reached meter_data session)
  unfolding on_reading soc_push
  on_reading-count rt db n meter_data dt session =
      let noted = update_transaction dt.id (record_reading rt meter_data dt) db in
      let limited =
        stop_if (energy_reached meter_data dt) "Max Energy Reached" n dt session noted in
      let final =
        stop_if (percentage_reached meter_data session) "Max Percentage Reached" n dt session
          limited.0 in
      let pushes = soc_push db meter_data dt session in
      let patching = is_ocpi session.platform && not (holds dt.status (some 1)) in
      let patches = if patching then patch_ocpi_session_on_meter_value noted session dt else [] in
      counts_of_four n pushes patches limited.1 final.1 (one_if (energy_reached meter_data dt))
        (one_if (percentage_reached meter_data session))
        (push_soc-no_stop n db (as_number meter_data.soc) (as_number dt.stop_soc) session.user_id)
        (patch_if-no_stop n noted session dt patching)
        (stop_if-count (energy_reached meter_data dt) "Max Energy Reached" n dt session noted)
        (stop_if-count (percentage_reached meter_data session) "Max Percentage Reached" n dt session
          limited.0)

  -- A reading within a charging session, after its begin, asks the charger to stop once for the energy limit, if
  -- it is reached while the transaction runs, and once for the percentage, if that is reached: not
  -- at all where neither is, and twice where both are.
  pub reading_stops :
      (rt : Runtime) (db : Database W) (n : ℕ) (samples : List (MeterSample W))
      (charger_id : String) (dt : DeviceTransaction W) (session : ChargingSession W)
      → let msg = reading_of n samples in
        n == 0 ≡ false
        → transaction_of db n ≡ some dt
        → session_of db dt ≡ some session
        → is_transaction_begin msg ≡ false
        → stop_count n (handle rt db msg charger_id).1
          ≡ one_if (energy_reached (read_meter msg) dt)
            + one_if (percentage_reached (read_meter msg) session)
  unfolding handle on_number on_transaction on_session
  reading_stops rt db n samples charger_id dt session positive found there runs =
      let msg = reading_of n samples in
      let calls = (on_reading rt db n (read_meter msg) dt session).1 in
      rw (positive, found, there, runs)
        (counts_with_none n calls (emit_to_room session.session_id "meterValue" ∷ [])
          (one_if (energy_reached (read_meter msg) dt)
            + one_if (percentage_reached (read_meter msg) session))
          (on_reading-count rt db n (read_meter msg) dt session) refl)
