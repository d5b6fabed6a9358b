-- ===== src/Lib.antt =====
-- A charging-station platform (a NestJS monorepo): chargers talk OCPP to a gateway, which keeps the
-- charging sessions and settles them; an API takes payments and refunds them; a scheduler sweeps
-- what got stuck. The parts share one MySQL database and call each other over Redis channels.
--
-- What models what (paths from the repository's root):
-- - Schema: the rows of the tables, from modules/*/src/entities and database/src/enums.ts, with the
--   columns that the modelled operations use. Store: updates by key and lookups. Prelude.Rows: the
--   query builder's calls on a table, which is the list of its rows; getRawOne and findOne give the
--   first row that matches, and NULL equals nothing.
-- - Number: JavaScript's numbers as a parameter with its operations. Whole: whole numbers, for the
--   runs at concrete rows (Samples, and the modules named Tests). What a FLOAT column rounds off is
--   not represented.
-- - Ocpp.Runtime and Ocpp.Effect: the clock, and what handlers do outside the database: frames,
--   room events, push notifications, refund requests and calls to roaming partners.
-- - Ocpp.Raw: what the gateway's handlers read of a row that `select(['c.id'])` and `getRawOne()` give.
--   The tables are registered as entities (database/src/database.module.ts), so that TypeORM names the
--   columns of such a row c_id and so on, as modules/vendors/src/repositories/admin-vendor.repository.ts
--   says; a property such as `charger.id` is then undefined, and as a query's parameter NULL. Each such
--   reading is a definition named raw_ and the property. `c.*` and `getOne()` give the columns' names.
-- - Ocpp.Tariff and Ocpp.Stop: apps/ocpp-gateway/src/v16/handlers/stop-transaction.handler.ts, with
--   the choice of a price that start-transaction.handler.ts has too. `handle` is the handler;
--   `settlement`, `bill_of`, `record_stop`, `record_bill`, `collect` and `complete_session` are its
--   stages, in Reading, Price and Payment, and Thrown has the catch branch. The theorems are in Once,
--   Ledger, Refused and Silent.
-- - Ocpp.Start: apps/ocpp-gateway/src/v16/handlers/start-transaction.handler.ts: `handle` with the
--   flows of a booked session, a vehicle and an RFID tag (Session, Vid, Rfid), and `calculateEnergy`
--   with common/utils/amount-to-energy.util.ts (Energy). The flows take any charger object; `handle`
--   gives them the one that its query gives. The theorem is in Refused.
-- - Ocpp.Meter: apps/ocpp-gateway/src/v16/handlers/meter-values.handler.ts, with the readings in
--   Frame and the updates in Update; the theorems are in Limits, Stops
--   and Silent.
-- - Ocpp.Authorize: apps/ocpp-gateway/src/v16/handlers/authorize.handler.ts; the theorem is in Known.
-- - Ocpp.Router: apps/ocpp-gateway/src/v16/v16.router.ts, with the theorem in Calls.
-- - Ocpp.Boot: apps/ocpp-gateway/src/v16/handlers/boot-notification.handler.ts; the theorem is in Again.
-- - Ocpp.DataTransfer: apps/ocpp-gateway/src/v16/handlers/data-transfer.handler.ts; the theorem is in
--   Mismatch.
-- - Ocpp.Configuration: apps/ocpp-gateway/src/v16/handlers/configuration.handler.ts; the theorem is in
--   Lost.
-- - Ocpp.Status: apps/ocpp-gateway/src/v16/handlers/status-notification.handler.ts, up to the calls to
--   the roaming partners; the theorem is in Lost.
-- - Common.MonthRange: libs/common/utils/month-range.util.ts.
-- - Payments.Refund: modules/payments/src/services/qr-refund-listener.service.ts, with `applyRefund`
--   of its repository.
-- - Payments.Webhook: modules/payments/src/services/payment-webhook.service.ts, with the wallet, the
--   coupon and the ledger in Wallets. The theorems are in Once, Credits, RefNo and Late. The loop for
--   a reference number runs over the list of the numbers that are drawn, and gives nothing once the
--   list ends; RefNo says how long a list is enough.
-- - Payments.QrWebhook: modules/payments/src/services/qr-pay-charge-webhook.service.ts, with its
--   queries in repositories/pay-charge-qr.repository.ts; the theorems are in Once, Booked and
--   Unpriced.
-- - Scheduler.Sweep: apps/scheduler/src/queue/qr-sweep.service.ts and its repository; the theorems are
--   in Attempts and Exhausted.
-- - Scheduler.Settlements: apps/scheduler/src/cron/cpo-settlement.cron.ts with its repository; Due says
--   what is due for a day, and the theorem is in Again. What a DATETIME column keeps of an instant is
--   a parameter.
-- - Scheduler.Amc: `handleClientAmcExpiry` of apps/scheduler/src/cron/amc-expiry.cron.ts with its
--   repository; the theorems are in Pass, Once and Hours. Prelude.Keyed has its loops of updates by
--   key.
-- - Scheduler.Health: apps/scheduler/src/cron/ocpi-health.cron.ts with its repository; the theorem is in
--   Reach.
-- - Ocpp.Calls: apps/ocpp-gateway/src/common/registry/pending-call.registry.ts, as functions on the
--   registry and a step relation of what may happen to it; the theorems are in Once.
-- - Ocpp.Connections: apps/ocpp-gateway/src/gateway.ts and common/registry/connection.registry.ts: the
--   registration of a socket, and the close handler in two halves, since other events may come
--   between them; Online has what a connection writes. The theorems are in Registry,
--   LateClose and Offline.
--
-- Each handler is a function from the database and the message to the database and the calls made;
-- every loop is structural recursion on a list, so no fuel is needed but the numbers drawn in
-- Payments.Webhook. Keys are positive, so that a
-- nullable key is truthy exactly when it is there; which columns of a coupon's row are under their own
-- names is a parameter; the key of an inserted row is the run time's. Not modelled: failures of the
-- database and of the network, which the handlers catch and log, except the refund provider's, an
-- error in a stop (Ocpp.Stop.Thrown), and an insert without a key that has no default; the collation by
-- which MySQL compares texts; the writes that the OCPI integration makes on its own; the
-- administration modules of the API, which are queries with little logic of their own.
pub mod Prelude
pub mod Number
pub mod Whole
pub mod Schema
pub mod Store
pub mod Common
pub mod Ocpp
pub mod Payments
pub mod Samples
pub mod Scheduler
