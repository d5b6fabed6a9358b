-- ===== src/Store.antt =====
-- Statements on devicetransactions and chargingsessions that several parts share: the inserts, the
-- updates by key and the lookups of apps/ocpp-gateway/src/v16/handlers.
use nest_js_project.Prelude.{
  ℕ, ◌≡◌, ap, [], ◌∷◌, ◌++◌, Option, some, arith, ◌==◌, if◌then◌else◌, holds, find_one,
  update_where, map_option, find_one-update_where, find_one-test,
}
use nest_js_project.Schema.{DeviceTransaction, ChargingSession, Database}

module _ {W : Type 0} where
  -- `update('devicetransactions').set(…).where('id = :id')`.
  unfoldable pub update_transaction :
      ℕ → (DeviceTransaction W → DeviceTransaction W) → Database W → Database W
  update_transaction id set db = record db {
    device_transactions = update_where (λ r. r.id == id) set db.device_transactions;
  }

  -- `update('chargingsessions').set(…).where('id = :id')`.
  unfoldable pub update_session :
      ℕ → (ChargingSession W → ChargingSession W) → Database W → Database W
  update_session id set db = record db {
    charging_sessions = update_where (λ s. s.id == id) set db.charging_sessions;
  }

  abbrev pub insert_transaction : DeviceTransaction W → Database W → Database W
  insert_transaction row db = record db { device_transactions = db.device_transactions ++ row ∷ [] }

  abbrev pub insert_session : ChargingSession W → Database W → Database W
  insert_session row db = record db { charging_sessions = db.charging_sessions ++ row ∷ [] }

  -- The row of `where('dt.transactionId = :transactionId')`.
  abbrev pub transaction_of : Database W → ℕ → Option (DeviceTransaction W)
  transaction_of db transaction_id =
      find_one (λ r. holds r.transaction_id (some transaction_id)) db.device_transactions

  -- The row of `where('cs.transactionId = :txId')`.
  abbrev pub session_of : Database W → DeviceTransaction W → Option (ChargingSession W)
  session_of db dt = find_one (λ s. holds s.transaction_id (some dt.id)) db.charging_sessions

  abbrev pub session_by_id : Database W → ℕ → Option (ChargingSession W)
  session_by_id db id = find_one (λ s. s.id == id) db.charging_sessions

  pub session_by_id-update_self :
      (id : ℕ) (set : ChargingSession W → ChargingSession W) (db : Database W)
      (s : ChargingSession W)
      → ((x : ChargingSession W) → (set x).id ≡ x.id)
      → session_by_id db id ≡ some s
      → session_by_id (update_session id set db) id ≡ some (set s)
  unfolding update_session
  session_by_id-update_self id set db s keep found = ground (
    arith,
    find_one-update_where (λ x. x.id == id) (λ x. x.id == id) set (λ x. ap (λ k. k == id) (keep x))
        db.charging_sessions,
    find_one-test (λ (x : ChargingSession W). x.id == id) db.charging_sessions s found,
  )

  -- Updating a transaction's row keeps which row a transaction number leads to.
  pub transaction_of-update :
      (id n : ℕ) (set : DeviceTransaction W → DeviceTransaction W) (db : Database W)
      → ((r : DeviceTransaction W) → (set r).transaction_id ≡ r.transaction_id)
      → transaction_of (update_transaction id set db) n
        ≡ map_option (λ r. if r.id == id then set r else r) (transaction_of db n)
  unfolding update_transaction
  transaction_of-update id n set db keep =
      find_one-update_where (λ r. holds r.transaction_id (some n)) (λ r. r.id == id) set
        (λ r. ap (λ t. holds t (some n)) (keep r)) db.device_transactions

  -- An update by the row's own key is what is found afterwards.
  pub transaction_of-update_self :
      (id n : ℕ) (set : DeviceTransaction W → DeviceTransaction W) (db : Database W)
      (r : DeviceTransaction W)
      → ((x : DeviceTransaction W) → (set x).transaction_id ≡ x.transaction_id)
      → transaction_of db n ≡ some r
      → r.id ≡ id
      → transaction_of (update_transaction id set db) n ≡ some (set r)
  transaction_of-update_self id n set db r keep found same =
      ground (arith, transaction_of-update id n set db keep)
