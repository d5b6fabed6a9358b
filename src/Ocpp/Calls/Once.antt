-- ===== src/Ocpp/Calls/Once.antt =====
-- No call is settled twice: common/registry/pending-call.registry.ts.
use nest_js_project.Prelude.{
  subst, ℕ, ◌≤◌, ◌≡◌, refl, inl, inr, Bool, Bool-cases, true, false, List, [], ◌∷◌, String,
  if◌then◌else◌, ◌===◌, ◌==◌, eq_of_text_beq, text_beq_self, arith,
}
use nest_js_project.Ocpp.Calls.{
  Outcome, Calls, has_id, delete_id, settle, register_call, send_call, time_out, is_answer,
  handle_incoming,
}
use nest_js_project.Ocpp.Calls.Steps.{
  pending_count, uses, Step, send, incoming, expire, Reachable, start, next,
}

-- Each id is in one entry at most, so that it is pending, or settled once, or neither.
abbrev pub UsedOnce : Calls → Type 0
UsedOnce calls = (id : String) → uses id calls ≤ 1

delete_id-gone : (id : String) (ids : List String) → pending_count id (delete_id id ids) ≡ 0
delete_id-gone id [] = refl
delete_id-gone id (x ∷ xs) = ground (arith, delete_id-gone id xs)

delete_id-fewer :
    (id other : String) (ids : List String)
    → pending_count other (delete_id id ids) ≤ pending_count other ids
delete_id-fewer id other [] = omega arith
delete_id-fewer id other (x ∷ xs) = ground (arith, delete_id-fewer id other xs)

pending_counted :
    (id : String) (ids : List String) → has_id id ids ≡ true → 1 ≤ pending_count id ids
pending_counted id [] h = cc
pending_counted id (x ∷ xs) h = ground (arith, pending_counted id xs)

settle_self :
    (id : String) (outcome : Outcome) (calls : Calls)
    → has_id id calls.pending ≡ true
    → UsedOnce calls
    → uses id (settle id outcome calls) ≤ 1
unfolding settle
settle_self id outcome calls here once =
    rw (text_beq_self id) (
      omega
        (arith, delete_id-gone id calls.pending, pending_counted id calls.pending here, once id))

-- A pending call that is settled keeps the invariant.
settle-UsedOnce :
    (id : String) (outcome : Outcome) (calls : Calls)
    → has_id id calls.pending ≡ true
    → UsedOnce calls
    → UsedOnce (settle id outcome calls)
unfolding settle
settle-UsedOnce id outcome calls here once other = elim (Bool-cases (id === other)) [
  | inl same ↦
      subst (λ x. uses x (settle id outcome calls) ≤ 1) (eq_of_text_beq id other same)
        (settle_self id outcome calls here once)
  | inr different ↦ rw different (omega (arith, delete_id-fewer id other calls.pending, once other))
]

register_self :
    (id : String) (calls : Calls) → uses id calls ≡ 0 → uses id (register_call id calls) ≤ 1
register_self id calls fresh = rw (text_beq_self id) (omega (arith, fresh))

register_call-UsedOnce :
    (id : String) (calls : Calls)
    → uses id calls ≡ 0
    → UsedOnce calls
    → UsedOnce (register_call id calls)
register_call-UsedOnce id calls fresh once other = elim (Bool-cases (id === other)) [
  | inl same ↦
      subst (λ x. uses x (register_call id calls) ≤ 1) (eq_of_text_beq id other same)
        (register_self id calls fresh)
  | inr different ↦ rw different (omega (arith, once other))
]

send_call-UsedOnce :
    (connected sends : Bool) (id : String) (calls : Calls)
    → uses id calls ≡ 0
    → UsedOnce calls
    → UsedOnce (send_call connected sends id calls)
unfolding send_call
send_call-UsedOnce false sends id calls fresh once = once
send_call-UsedOnce true true id calls fresh once = register_call-UsedOnce id calls fresh once
send_call-UsedOnce true false id calls fresh once =
    settle-UsedOnce id Outcome.send_failed (register_call id calls) (rw (text_beq_self id) refl)
      (register_call-UsedOnce id calls fresh once)

handle_incoming-UsedOnce :
    (message_type : ℕ) (id : String) (calls : Calls)
    → UsedOnce calls
    → UsedOnce (handle_incoming message_type id calls).0
unfolding handle_incoming
handle_incoming-UsedOnce message_type id calls once = elim (Bool-cases (is_answer message_type)) [
  | inr other_frame ↦ rw other_frame once
  | inl answer ↦ elim (Bool-cases (has_id id calls.pending)) [
    | inr unknown ↦ rw (answer, unknown) once
    | inl here ↦
        rw (answer, here)
          (settle-UsedOnce id (if message_type == 3 then Outcome.resolved else Outcome.rejected)
            calls here once)
  ]
]

Step-UsedOnce : {calls after : Calls} → Step calls after → UsedOnce calls → UsedOnce after
unfolding time_out
Step-UsedOnce (send calls connected sends id fresh) once =
    send_call-UsedOnce connected sends id calls fresh once
Step-UsedOnce (incoming calls message_type id) once =
    handle_incoming-UsedOnce message_type id calls once
Step-UsedOnce (expire calls id here) once = settle-UsedOnce id Outcome.timed_out calls here once

-- However calls, answers, failures and timers follow each other, each id is pending once, or
-- settled once, or neither: no caller is answered twice, and none after its time-out.
pub Reachable-UsedOnce : {calls : Calls} → Reachable calls → UsedOnce calls
Reachable-UsedOnce start = λ id. omega arith
Reachable-UsedOnce (next before step) = Step-UsedOnce step (Reachable-UsedOnce before)

gone_is_not_found : (id : String) (ids : List String) → has_id id (delete_id id ids) ≡ false
gone_is_not_found id [] = refl
gone_is_not_found id (x ∷ xs) = ground (arith, gone_is_not_found id xs)

unknown_answer :
    (message_type : ℕ) (id : String) (calls : Calls)
    → has_id id calls.pending ≡ false
    → handle_incoming message_type id calls ≡ (calls, false)
unfolding handle_incoming
unknown_answer message_type id calls unknown = elim (Bool-cases (is_answer message_type)) [
  | inr other_frame ↦ rw other_frame refl
  | inl answer ↦ rw (answer, unknown) refl
]

answered_is_gone :
    (message_type : ℕ) (id : String) (calls : Calls)
    → is_answer message_type ≡ true
    → has_id id (handle_incoming message_type id calls).0.pending ≡ false
unfolding handle_incoming settle
answered_is_gone message_type id calls answer = elim (Bool-cases (has_id id calls.pending)) [
  | inr unknown ↦ rw (answer, unknown) unknown
  | inl here ↦ rw (answer, here) (gone_is_not_found id calls.pending)
]

-- A second answer to the same call, of either type, is not taken for one: it changes nothing, and
-- is passed on as a frame of its own.
pub second_answer_ignored :
    (first second : ℕ) (id : String) (calls : Calls)
    → is_answer first ≡ true
    → handle_incoming second id (handle_incoming first id calls).0
      ≡ ((handle_incoming first id calls).0, false)
second_answer_ignored first second id calls answer =
    unknown_answer second id (handle_incoming first id calls).0
      (answered_is_gone first id calls answer)
