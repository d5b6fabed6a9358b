-- ===== src/Ocpp/Calls/Steps.antt =====
-- What may happen to the calls of common/registry/pending-call.registry.ts, in any order: calls are
-- sent, frames come in, and timers fire.
use nest_js_project.Prelude.{ℕ, ◌+◌, ◌≡◌, Bool, true, List, [], ◌∷◌, String, ◌===◌}
use nest_js_project.Ocpp.Calls.{
  Outcome, Calls, no_calls, has_id, send_call, time_out, handle_incoming,
}

abbrev pub one_if : Bool → ℕ
one_if true = 1
one_if _ = 0

abbrev pub pending_count : String → List String → ℕ
pending_count id [] = 0
pending_count id (x ∷ xs) = one_if (x === id) + pending_count id xs

abbrev pub settled_count : String → List (String × Outcome) → ℕ
settled_count id [] = 0
settled_count id (x ∷ xs) = one_if (x.0 === id) + settled_count id xs

-- In how many entries an id occurs.
abbrev pub uses : String → Calls → ℕ
uses id calls = pending_count id calls.pending + settled_count id calls.settled

-- A new id is not in use, and a timer is alive only while its call is pending.
pub data Step : Calls → Calls → Type 0 where
  send :
      (calls : Calls) (connected sends : Bool) (id : String)
      → uses id calls ≡ 0
      → Step calls (send_call connected sends id calls)
  incoming :
      (calls : Calls) (message_type : ℕ) (id : String)
      → Step calls (handle_incoming message_type id calls).0
  expire :
      (calls : Calls) (id : String)
      → has_id id calls.pending ≡ true
      → Step calls (time_out id calls)

pub data Reachable : Calls → Type 0 where
  start : Reachable no_calls
  next : {calls after : Calls} → Reachable calls → Step calls after → Reachable after
