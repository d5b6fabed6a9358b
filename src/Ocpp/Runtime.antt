-- ===== src/Ocpp/Runtime.antt =====
-- What a handler takes from the JavaScript run time and the database's counters: the clock, local
-- days, the decimal text of a number, and the keys of the rows that are inserted.
use nest_js_project.Prelude.{ℕ, String}

pub record Runtime : Type 0 where
  pub now : ℕ  -- `Date.now()`, `new Date()`
  pub midnight : ℕ → ℕ  -- `new Date(d).setHours(0, 0, 0, 0)`
  pub day_end : ℕ → ℕ  -- `new Date(d).setHours(23, 59, 59, 999)`
  pub show : ℕ → String  -- `${n}`
  pub random_hex : String  -- `crypto.randomBytes(8).toString('hex').toUpperCase()`
  pub new_transaction : ℕ  -- `insertId` of the next row of devicetransactions
  pub new_session : ℕ  -- the key of the next row of chargingsessions
  pub kolkata_date : ℕ  -- midnight of `toLocaleDateString` in Asia/Kolkata, as MySQL reads it
  pub kolkata_time : String  -- `toLocaleTimeString` in Asia/Kolkata
