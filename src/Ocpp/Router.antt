-- ===== src/Ocpp/Router.antt =====
-- apps/ocpp-gateway/src/v16/v16.router.ts: which handler takes a frame of a charger, and what goes back
-- over the socket. The handlers' own answers and the log are not part of it.
pub mod Calls
mod Tests
use nest_js_project.Prelude.{
  Bool, true, false, ◌||◌, Option, none, some, List, [], ◌∷◌, String, if◌then◌else◌, ◌===◌,
  holds_text,
}

pub data Action : Type 0 where
  boot_notification heartbeat authorize start_transaction stop_transaction meter_values : Action
  status_notification data_transfer firmware_diagnostics configuration : Action

-- What the router looks at in a frame.
pub record IncomingFrame : Type 0 where
  pub texts : List String  -- the elements of the array that are texts
  pub action : Option String  -- `incoming[2]`, if it is a text
  pub has_configuration_key : Bool  -- `incoming[2]?.configurationKey`
  pub status : Option String  -- `incoming[3].status`

-- What the handlers of the two transaction messages give back.
pub record HandlerResults : Type 0 where
  pub start_returns : Bool  -- the start's answer, if it did not send that itself
  pub stop_is_array : Bool  -- an OCPP array, and not the result of an administrator's stop

pub data SentFrame : Type 0 where
  response : Action → SentFrame
  clear_cache : SentFrame

abbrev pub includes : List String → String → Bool
includes [] name = false
includes (t ∷ ts) name = (t === name) || includes ts name

-- `incoming.includes(name) || action === name`.
unfoldable pub mentions : IncomingFrame → String → Bool
mentions frame name = includes frame.texts name || holds_text frame.action (some name)

unfoldable pub route : IncomingFrame → Option Action
route frame =
    if mentions frame "BootNotification"
    then some Action.boot_notification
    else if mentions frame "Heartbeat"
    then some Action.heartbeat
    else if mentions frame "Authorize"
    then some Action.authorize
    else if mentions frame "StartTransaction"
    then some Action.start_transaction
    else if mentions frame "StopTransaction"
    then some Action.stop_transaction
    else if mentions frame "MeterValues"
    then some Action.meter_values
    else if mentions frame "StatusNotification"
    then some Action.status_notification
    else if mentions frame "DataTransfer"
    then some Action.data_transfer
    else if mentions frame "DiagnosticsStatusNotification"
    then some Action.firmware_diagnostics
    else if mentions frame "FirmwareStatusNotification"
    then some Action.firmware_diagnostics
    else if frame.has_configuration_key
    then some Action.configuration
    else none

abbrev pub sent : HandlerResults → IncomingFrame → Option Action → List SentFrame
sent results frame none = []
sent results frame (some Action.configuration) = []
sent results frame (some Action.start_transaction) =
    if results.start_returns then response Action.start_transaction ∷ [] else []
sent results frame (some Action.stop_transaction) =
    if results.stop_is_array then response Action.stop_transaction ∷ [] else []
sent results frame (some Action.status_notification) =
    response Action.status_notification
    ∷ (if holds_text frame.status (some "Available") then clear_cache ∷ [] else [])
sent results frame (some action) = response action ∷ []

-- `handleMessage`; `settled` says whether the frame answered a call of the gateway's own.
unfoldable pub handle_message : Bool → HandlerResults → IncomingFrame → List SentFrame
handle_message settled results frame = if settled then [] else sent results frame (route frame)
