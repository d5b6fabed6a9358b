-- ===== src/Ocpp/Calls/Tests.antt =====
-- Calls at a sample registry, and the theorems about them.
use nest_js_project.Prelude.{◌≡◌, refl, true, false}
use nest_js_project.Ocpp.Calls.{Calls, no_calls, send_call, handle_incoming}
use nest_js_project.Ocpp.Calls.Steps.{Reachable, start, next, send, incoming}
use nest_js_project.Ocpp.Calls.Once.{UsedOnce, Reachable-UsedOnce, second_answer_ignored}

-- One call, sent and answered.
abbrev answered : Calls
answered = (handle_incoming 3 "m1" (send_call true true "m1" no_calls)).0

answered-Reachable : Reachable answered
answered-Reachable =
    next (next start (send no_calls true true "m1" refl))
      (incoming (send_call true true "m1" no_calls) 3 "m1")

Reachable-UsedOnce_example : UsedOnce answered
Reachable-UsedOnce_example = Reachable-UsedOnce answered-Reachable

second_answer_ignored_example : handle_incoming 4 "m1" answered ≡ (answered, false)
second_answer_ignored_example =
    second_answer_ignored 3 4 "m1" (send_call true true "m1" no_calls) refl
