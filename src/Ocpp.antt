-- ===== src/Ocpp.antt =====
-- apps/ocpp-gateway: the handlers of the OCPP 1.6 messages, and the registries of connections and
-- pending calls.
pub mod Runtime
pub mod Effect
pub mod Raw
pub mod Tariff
pub mod Stop
pub mod Start
pub mod Authorize
pub mod Router
pub mod Boot
pub mod Configuration
pub mod Status
pub mod DataTransfer
pub mod Meter
pub mod Calls
pub mod Connections
