-- ===== src/Ocpp/Start/Frame.antt =====
-- The message and the answers of v16/handlers/start-transaction.handler.ts.
use nest_js_project.Prelude.{
  ℕ, ◌+◌, Option, none, some, List, String, Bool, ◌&&◌, ◌==◌, if◌then◌else◌, find_one, filled,
  get_or_else, holds, holds_text, is_some,
}
use nest_js_project.Schema.{DeviceTransaction, User, PrefixConfig, Database}
use nest_js_project.Ocpp.Raw.{undefined}
use nest_js_project.Ocpp.Effect.{Effect, push_notification}
use nest_js_project.Prelude.{[], ◌∷◌}

pub record StartMessage (W : Type 0) : Type 0 where
  pub uuid : String
  pub connector_id : ℕ
  pub id_tag : Option String
  pub meter_start : Option W

pub data StartStatus : Type 0 where
  accepted invalid concurrent_tx : StartStatus

-- What `idTagInfo` holds besides its status.
pub data TagInfo : Type 0 where
  no_info : TagInfo
  note : String → TagInfo
  note_without_number : String → TagInfo  -- with `transactionId: ''`
  tag_of : Option ℕ → Option String → TagInfo  -- the expiry date and the parent's tag

pub record StartReply : Type 0 where
  pub uuid : String
  pub status : StartStatus
  pub info : TagInfo
  pub transaction_id : Option ℕ

-- The one frame that the charger gets, whether `handle` returns it or sends it itself.
abbrev pub StartResult : Type 0 → Type 0
StartResult W = Database W × List (Effect W) × StartReply

abbrev pub refuse : String → StartStatus → TagInfo → StartReply
refuse uuid status info = record {
  uuid = uuid;
  status = status;
  info = info;
  transaction_id = none;
}

unfoldable pub generate_transaction_id : ℕ → ℕ
generate_transaction_id id = 1_000_000 + id

-- `prefixConfig?.session`, where the key of the row is `pc_session`.
abbrev raw_session : Option PrefixConfig → Option String
raw_session none = none
raw_session (some p) = undefined

abbrev prefix_of : Option String → String
prefix_of session = if filled session then get_or_else session "NEX" else "NEX"

-- `x || null` for a text.
abbrev pub kept_text : Option String → Option String
kept_text t = if filled t then t else none

-- The user's push token and client, where the keys of the row are `u_fcmToken` and `u_clientId`.
abbrev pub raw_token : Option User → Option String
raw_token none = none
raw_token (some u) = undefined

abbrev pub raw_client : Option User → Option ℕ
raw_client none = none
raw_client (some u) = undefined

module _ {W : Type 0} where
  abbrev pushed : Option User → List (Effect W)
  pushed user =
      if filled (raw_token user)
      then push_notification (raw_client user) (get_or_else (raw_token user) "") "charging-start"
        ∷ []
      else []

  unfoldable pub session_prefix : Database W → Option ℕ → String
  session_prefix db client_id =
      prefix_of (raw_session (find_one (λ p. holds (some p.client_id) client_id) db.prefix_configs))

  -- `dt.chargerId = … AND dt.connectorId = … AND dt.status = 0`.
  abbrev pub open_at : String → String → DeviceTransaction W → Bool
  open_at charger_id connector r =
      holds_text r.charger_id (some charger_id)
      && holds_text r.connector_id (some connector)
      && holds r.status (some 0)

  abbrev pub occupied : Database W → String → String → Bool
  occupied db charger_id connector =
      is_some (find_one (open_at charger_id connector) db.device_transactions)

  unfoldable pub send_charging_started_notification : Database W → Option ℕ → List (Effect W)
  send_charging_started_notification db none = []
  send_charging_started_notification db (some user_id) =
      pushed (find_one (λ u. u.id == user_id) db.users)
