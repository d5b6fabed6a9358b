-- ===== src/Ocpp/Calls.antt =====
-- common/registry/pending-call.registry.ts: the calls that the gateway sends to chargers, matched to
-- their answers by message id. The state is the ids in the map, and how each promise was settled.
pub mod Steps
pub mod Once
mod Tests
use nest_js_project.Prelude.{
  ℕ, Bool, true, false, ◌||◌, not, List, [], ◌∷◌, String, if◌then◌else◌, ◌===◌, ◌==◌,
}

pub data Outcome : Type 0 where
  resolved rejected timed_out send_failed : Outcome

-- `settled` is what the callers have seen: the latest first.
pub record Calls : Type 0 where
  pub pending : List String
  pub settled : List (String × Outcome)

abbrev pub no_calls : Calls
no_calls = record { pending = []; settled = [] }

abbrev pub has_id : String → List String → Bool
has_id id [] = false
has_id id (x ∷ xs) = (x === id) || has_id id xs

-- `Map.delete`.
abbrev pub delete_id : String → List String → List String
delete_id id [] = []
delete_id id (x ∷ xs) = let rest = delete_id id xs in if x === id then rest else x ∷ rest

-- The timer is cleared, the id deleted, and the promise settled.
unfoldable pub settle : String → Outcome → Calls → Calls
settle id outcome calls = record {
  pending = delete_id id calls.pending;
  settled = (id, outcome) ∷ calls.settled;
}

abbrev pub register_call : String → Calls → Calls
register_call id calls = record calls { pending = id ∷ calls.pending }

-- `sendCall` with a new message id: a charger that is not connected throws before the id is
-- registered; where `send` throws, the promise is rejected at once.
unfoldable pub send_call : Bool → Bool → String → Calls → Calls
send_call connected sends id calls =
    if connected
    then (if sends
        then register_call id calls
        else settle id Outcome.send_failed (register_call id calls))
    else calls

-- The timer of a call fires.
unfoldable pub time_out : String → Calls → Calls
unfolding settle
time_out id calls = settle id Outcome.timed_out calls

abbrev pub is_answer : ℕ → Bool
is_answer message_type = message_type == 3 || message_type == 4

-- `handleIncoming`: whether the frame was an answer to a pending call.
unfoldable pub handle_incoming : ℕ → String → Calls → Calls × Bool
handle_incoming message_type id calls =
    if is_answer message_type
    then (if has_id id calls.pending
        then (
          settle id (if message_type == 3 then Outcome.resolved else Outcome.rejected) calls,
          true,
        )
        else (calls, false))
    else (calls, false)
