-- ===== src/Ocpp/Effect.antt =====
-- What a handler does besides its writes to the database, in order: frames to the charger's socket,
-- events to the socket.io rooms, push notifications, refund requests and calls to roaming partners.
use nest_js_project.Prelude.{ℕ, Option, String, Bool, true, false}
use nest_js_project.Schema.{SessionStatus}

-- What a refund is said to be for: a transaction's number, or the code of a session that has none.
pub data RefundReference : Type 0 where
  of_transaction : Option ℕ → RefundReference
  of_session : Option String → RefundReference

-- libs/common/constants/qr-refund.constants.ts.
pub record QrRefundRequestPayload (W : Type 0) : Type 0 where
  pub session_row_id : ℕ
  pub payment_transaction_id : Option ℕ
  pub client_id : ℕ
  pub session_code : Option String
  pub reference_id : RefundReference
  pub refund_amount : W
  pub reason : String
  pub new_status : Option SessionStatus

pub data Effect (W : Type 0) : Type 0 where
  emit_to_room : Option String → String → Effect W
  push_notification : Option ℕ → String → String → Effect W
  publish_refund : QrRefundRequestPayload W → Effect W
  remote_stop : ℕ → Effect W
  remote_start : String → Option ℕ → Option String → Effect W
  data_transfer : Option ℕ → ℕ → Option W → Effect W
  ocpi_result : String → Effect W
  ocpi_patch_session : ℕ → Option ℕ → W → W → Effect W
  ocpi_cdr : ℕ → W → W → W → Effect W

-- A call that goes neither to a user's phone nor to a roaming partner.
abbrev pub stays_here : {W : Type 0} → Effect W → Bool
stays_here (push_notification client token kind) = false
stays_here (ocpi_result url) = false
stays_here (ocpi_patch_session id tariff amount gst) = false
stays_here (ocpi_cdr id energy amount total) = false
stays_here (emit_to_room room event) = true
stays_here (publish_refund payload) = true
stays_here (remote_stop n) = true
stays_here (remote_start charger connector tag) = true
stays_here (data_transfer connector n energy) = true
