-- ===== src/Ocpp/Stop/Once.antt =====
-- A transaction is settled at most once: `handle` of v16/handlers/stop-transaction.handler.ts.
use nest_js_project.Prelude.{
  ℕ, ◌≡◌, ◌≢◌, refl, String, Bool, true, false, Option, none, some, [], arith, Bool-cases, inl, inr,
  ◌==◌, if◌then◌else◌,
}
use nest_js_project.Schema.{
  ChannelSource, DeviceTransaction, ChargingSession, Charger, Wallet, Database,
}
use nest_js_project.Number.{Number, as_number}
use nest_js_project.Ocpp.Runtime.{Runtime}
use nest_js_project.Ocpp.Stop.Reading.{StopMessage, record_stop, total_wh}
use nest_js_project.Ocpp.Stop.Price.{Settlement}
use nest_js_project.Ocpp.Stop.Payment.{Bill, bill_of, record_bill, mark_over_consumed}
use nest_js_project.Ocpp.Stop.{
  StopResult, StopReply, accepted, admin_stopped, refusal, handle, settle, collect, tariff_name_of,
  stopped_of, charger_of, how_settled,
}
use nest_js_project.Store.{
  transaction_of, update_transaction, update_session, transaction_of-update,
  transaction_of-update_self,
}
use nest_js_project.Ocpp.Stop.Cases.{handle_cases, stop_session_cases}

abbrev pub is_approval : StopReply → Bool
is_approval (accepted uuid) = true
is_approval admin_stopped = true
is_approval _ = false

not_refusal : (b : Bool) (uuid : String) → is_approval (refusal b uuid) ≢ true
not_refusal true uuid h = cc
not_refusal false uuid h = cc

module _ {W : Type 0} ⦃num : Number W⦄ where
  -- The transaction number leads to a settled row.
  abbrev pub SettledAt : Database W → ℕ → Type 0
  SettledAt db n = (r : DeviceTransaction W) × (transaction_of db n ≡ some r) × (r.status ≡ some 1)

  update-SettledAt :
      (id n : ℕ) (set : DeviceTransaction W → DeviceTransaction W) (db : Database W)
      → ((r : DeviceTransaction W) → (set r).transaction_id ≡ r.transaction_id)
      → ((r : DeviceTransaction W) → (set r).status ≡ r.status)
      → SettledAt db n
      → SettledAt (update_transaction id set db) n
  update-SettledAt id n set db keep_id keep_status (r, found, done) = (
    if r.id == id then set r else r,
    rw (transaction_of-update id n set db keep_id, found) refl,
    ground (arith, keep_status r),
  )

  -- No way of payment touches the status of a transaction.
  collect-SettledAt :
      (rt : Runtime) (db : Database W) (session : ChargingSession W) (dt : DeviceTransaction W)
      (charger : Option Charger) (how : Settlement W) (bill : Bill W)
      (platform : Option ChannelSource) (wallet : Option (Wallet W)) (n : ℕ)
      → SettledAt db n
      → SettledAt (collect rt db session dt charger how bill platform wallet).0 n
  unfolding collect mark_over_consumed
  collect-SettledAt rt db session dt charger how bill (some ChannelSource.ocpi) wallet n h = h
  collect-SettledAt rt db session dt charger how bill (some ChannelSource.qrpay) wallet n h =
      elim (Bool-cases (num.lt (as_number dt.max_amount) bill.total_amount)) [
        | inl over ↦ rw over (
            update-SettledAt dt.id n
              (mark_over_consumed (num.sub bill.total_amount (as_number dt.max_amount))) db
              (λ r. refl) (λ r. refl) h)
        | inr within ↦ rw within h
      ]
  collect-SettledAt rt db session dt charger how bill _ none n h = h
  collect-SettledAt rt db session dt charger how bill _ (some wallet) n h = h

  settle-SettledAt :
      (rt : Runtime) (db : Database W) (msg : StopMessage W) (dt r : DeviceTransaction W)
      (session : ChargingSession W) (charger : Option Charger) (how : Settlement W) (n : ℕ)
      → transaction_of db n ≡ some r
      → r.id ≡ dt.id
      → SettledAt (settle rt db msg dt session charger how).0 n
  unfolding settle record_bill update_session
  settle-SettledAt rt db msg dt r session charger how n found same =
      let bill = bill_of how.required_price (total_wh msg dt) in
      let set = record_bill bill (tariff_name_of session.platform how.tariff_type) in
      collect-SettledAt rt (update_transaction dt.id set db) session dt charger how bill
        session.platform how.wallet n
        (set r, transaction_of-update_self dt.id n set db r (λ x. refl) found same, refl)

  abbrev SettlesIfApproved : ℕ → StopResult W → Type 0
  SettlesIfApproved n result = is_approval result.2 ≡ true → SettledAt result.0 n

  -- After a stop that was accepted, the transaction number leads to a settled row.
  pub approved-SettledAt :
      (rt : Runtime) (db : Database W) (msg : StopMessage W)
      → is_approval (handle rt db msg).2 ≡ true
      → SettledAt (handle rt db msg).0 msg.transaction_id
  unfolding record_stop
  approved-SettledAt rt db msg =
      handle_cases (SettlesIfApproved msg.transaction_id) rt db msg
        (λ h. absurd (not_refusal msg.is_abnormal_admin_stop msg.uuid h))
        λ dt session found running there.
          stop_session_cases (SettlesIfApproved msg.transaction_id) rt db msg dt session
            (λ _ h. absurd (not_refusal false msg.uuid h))
            λ _ _.
              settle-SettledAt rt (stopped_of rt db msg dt) msg dt (record_stop rt msg dt dt)
                session (charger_of db dt) (how_settled rt db dt session) msg.transaction_id
                (transaction_of-update_self dt.id msg.transaction_id (record_stop rt msg dt) db dt
                  (λ x. refl) found refl)
                refl

  settled_refused :
      (rt : Runtime) (db : Database W) (msg : StopMessage W)
      → SettledAt db msg.transaction_id
      → handle rt db msg ≡ (db, [], refusal msg.is_abnormal_admin_stop msg.uuid)
  unfolding handle
  settled_refused rt db msg (r, found, done) = rw (found, done) refl

  -- On the database that an accepted stop left, a second stop of the same transaction, whatever it says,
  -- is refused, and changes nothing: the one call after the other does not bill the transaction twice.
  pub stop_twice_refused :
      (rt later : Runtime) (db : Database W) (first second : StopMessage W)
      → first.transaction_id ≡ second.transaction_id
      → is_approval (handle rt db first).2 ≡ true
      → handle later (handle rt db first).0 second
        ≡ ((handle rt db first).0, [], refusal second.is_abnormal_admin_stop second.uuid)
  stop_twice_refused rt later db first second same approved =
      settled_refused later (handle rt db first).0 second
        (rw (← same) (approved-SettledAt rt db first approved))
