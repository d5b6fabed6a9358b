-- ===== src/Ocpp/Router/Calls.antt =====
-- apps/ocpp-gateway/src/v16/v16.router.ts: calls go to the handler that their action names.
use nest_js_project.Prelude.{
  ◌≡◌, refl, ap, Bool, true, false, ◌||◌, Option, none, some, List, [], ◌∷◌, String, ◌===◌,
  if◌then◌else◌, All,
}
use nest_js_project.Ocpp.Router.{
  Action, IncomingFrame, HandlerResults, mentions, route, sent, handle_message,
}

-- A call `[2, id, action, payload]`, whose payload may have a status.
abbrev pub call : String → String → Option String → IncomingFrame
call id action status = record {
  texts = id ∷ action ∷ [];
  action = some action;
  has_configuration_key = false;
  status = status;
}

pub record Named : Type 0 where
  pub name : String
  pub action : Action

-- The actions of OCPP 1.6 that a charger may call.
abbrev pub actions : List Named
actions =
    record { name = "BootNotification"; action = Action.boot_notification }
    ∷ record { name = "Heartbeat"; action = Action.heartbeat }
    ∷ record { name = "Authorize"; action = Action.authorize }
    ∷ record { name = "StartTransaction"; action = Action.start_transaction }
    ∷ record { name = "StopTransaction"; action = Action.stop_transaction }
    ∷ record { name = "MeterValues"; action = Action.meter_values }
    ∷ record { name = "StatusNotification"; action = Action.status_notification }
    ∷ record { name = "DataTransfer"; action = Action.data_transfer }
    ∷ record { name = "DiagnosticsStatusNotification"; action = Action.firmware_diagnostics }
    ∷ record { name = "FirmwareStatusNotification"; action = Action.firmware_diagnostics }
    ∷ []

abbrev pub entry : String → List Named → Option Action
entry name [] = none
entry name (n ∷ ns) = let rest = entry name ns in if name === n.name then some n.action else rest

abbrev pub action_named : String → Option Action
action_named name = entry name actions

-- A call's number is not the name of an action.
abbrev pub IsCallNumber : String → Type 0
IsCallNumber id = All (λ n. (id === n.name) ≡ false) actions

twice : (b : Bool) → (b || false) || b ≡ b
twice true = refl
twice false = refl

mentions-call :
    (id action : String) (status : Option String) (name : String)
    → (id === name) ≡ false
    → mentions (call id action status) name ≡ (action === name)
unfolding mentions
mentions-call id action status name differs = rw differs (twice (action === name))

route-call :
    (id action : String) (status : Option String)
    → IsCallNumber id
    → route (call id action status) ≡ action_named action
unfolding route
route-call id action status (h0, (h1, (h2, (h3, (h4, (h5, (h6, (h7, (h8, (h9, _)))))))))) =
    rw
      (
        mentions-call id action status "BootNotification" h0,
        mentions-call id action status "Heartbeat" h1,
        mentions-call id action status "Authorize" h2,
        mentions-call id action status "StartTransaction" h3,
        mentions-call id action status "StopTransaction" h4,
        mentions-call id action status "MeterValues" h5,
        mentions-call id action status "StatusNotification" h6,
        mentions-call id action status "DataTransfer" h7,
        mentions-call id action status "DiagnosticsStatusNotification" h8,
        mentions-call id action status "FirmwareStatusNotification" h9,
      )
      refl

-- A call that is no answer to one of the gateway's own, and whose number is not the name of an action,
-- is served as the table of actions says: the action's handler answers, an unknown action gets no
-- answer, and what follows an answer depends on that action alone.
pub calls_are_routed :
    (results : HandlerResults) (id action : String) (status : Option String)
    → IsCallNumber id
    → handle_message false results (call id action status)
      ≡ sent results (call id action status) (action_named action)
unfolding handle_message
calls_are_routed results id action status number =
    ap (sent results (call id action status)) (route-call id action status number)
