-- ===== src/Ocpp/Router/Tests.antt =====
-- Frames of a charger and what it is sent.
use nest_js_project.Prelude.{◌≡◌, refl, true, false, none, some, [], ◌∷◌}
use nest_js_project.Ocpp.Router.{
  Action, HandlerResults, SentFrame, mentions, route, sent, handle_message,
}
use nest_js_project.Ocpp.Router.Calls.{call, action_named, calls_are_routed}

abbrev results : HandlerResults
results = record { start_returns = true; stop_is_array = true }

-- A connector that becomes available has the charger clear its cache.
available_test :
    handle_message false results (call "17" "StatusNotification" (some "Available"))
    ≡ SentFrame.response Action.status_notification ∷ SentFrame.clear_cache ∷ []
unfolding handle_message route mentions
available_test = refl

-- A call whose number is the name of an action goes to the wrong handler.
misnumbered_test :
    handle_message false results (call "Heartbeat" "MeterValues" none)
    ≡ SentFrame.response Action.heartbeat ∷ []
unfolding handle_message route mentions
misnumbered_test = refl

calls_are_routed_example :
    handle_message false results (call "17" "MeterValues" none)
    ≡ sent results (call "17" "MeterValues" none) (action_named "MeterValues")
calls_are_routed_example =
    calls_are_routed results "17" "MeterValues" none
      (refl, (refl, (refl, (refl, (refl, (refl, (refl, (refl, (refl, (refl, tt))))))))))
