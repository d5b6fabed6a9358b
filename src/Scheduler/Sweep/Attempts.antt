-- ===== src/Scheduler/Sweep/Attempts.antt =====
-- How often the sweep starts a session: `sweepOnce` of apps/scheduler/src/queue/qr-sweep.service.ts.
use nest_js_project.Prelude.{
  ℕ, ◌+◌, ◌≤◌, ◌≡◌, inl, inr, Bool-cases, Option-cases, false, List, [], ◌∷◌, leb, ◌==◌, All,
  All-update_where, arith,
}
use nest_js_project.Schema.{ChargingSession, Database}
use nest_js_project.Number.{Number}
use nest_js_project.Ocpp.Runtime.{Runtime}
use nest_js_project.Store.{update_session}
use nest_js_project.Scheduler.Sweep.{
  max_attempts, remote_start_timeout_ms, attempts_of, find_charger_by_id,
  find_due_qr_sweep_sessions, set_remote_start, sweep_session, sweep_sessions, sweep_once,
}

module _ {W : Type 0} where
  abbrev pub WithinAttempts : ChargingSession W → Type 0
  WithinAttempts s = attempts_of s ≤ max_attempts

  -- No session was started more than five times by the sweep.
  abbrev pub Bounded : Database W → Type 0
  Bounded db = All WithinAttempts db.charging_sessions

one_more : (attempts : ℕ) → leb 5 attempts ≡ false → attempts + 1 ≤ 5
one_more attempts h = ground arith

module _ {W : Type 0} ⦃num : Number W⦄ where
  sweep_session-Bounded :
      (rt : Runtime) (db : Database W) (s : ChargingSession W)
      → Bounded db
      → Bounded (sweep_session rt db s).0
  unfolding sweep_session set_remote_start update_session
  sweep_session-Bounded rt db s bounded = elim (Bool-cases (leb max_attempts (attempts_of s))) [
    | inl spent ↦ rw spent bounded
    | inr left ↦ elim (Option-cases (find_charger_by_id db s.charger_ref)) [
      | inl gone ↦ rw (left, gone) bounded
      | inr (charger, found) ↦
          rw (left, found)
            (All-update_where WithinAttempts (λ r. r.id == s.id)
              (set_remote_start (attempts_of s + 1) (rt.now + remote_start_timeout_ms))
              (λ r h. one_more (attempts_of s) left) db.charging_sessions bounded)
    ]
  ]

  sweep_sessions-Bounded :
      (rt : Runtime) (db : Database W) (ss : List (ChargingSession W))
      → Bounded db
      → Bounded (sweep_sessions rt db ss).0
  unfolding sweep_sessions
  sweep_sessions-Bounded rt db [] bounded = bounded
  sweep_sessions-Bounded rt db (s ∷ ss) bounded =
      sweep_sessions-Bounded rt (sweep_session rt db s).0 ss (sweep_session-Bounded rt db s bounded)

  -- A sweep never takes a session's attempts beyond five, however often it runs.
  pub sweep_once-Bounded :
      (rt : Runtime) (db : Database W) → Bounded db → Bounded (sweep_once rt db).0
  unfolding sweep_once
  sweep_once-Bounded rt db = sweep_sessions-Bounded rt db (find_due_qr_sweep_sessions db)
