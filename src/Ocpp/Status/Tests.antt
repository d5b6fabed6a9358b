-- ===== src/Ocpp/Status/Tests.antt =====
-- The connector of the sample charger is free again.
use nest_js_project.Prelude.{◌≡◌, none, some, [], ◌∷◌}
use nest_js_project.Prelude.Int.{ℤ}
use nest_js_project.Schema.{
  ChannelSource, SessionStatus, ConnectorStatus, ChargingSession, Connector, Database,
}
use nest_js_project.Samples.{site, started_session, running_transaction}
use nest_js_project.Ocpp.Status.Lost.{status_is_lost}
use nest_js_project.Ocpp.Status.{StatusMessage, StatusRuntime, handle}

abbrev runtime : StatusRuntime
runtime = record {
  show = λ n. "1";
  stations = record { id = 6; station_unique_id = some "ST" } ∷ [];
  push_stations = record { charger_id = 3; emsp_id = 9; client_id = 1 } ∷ [];
}

abbrev connector : Connector
connector = record {
  id = 8;
  connector_id = "1";
  charger_id = 3;
  status = ConnectorStatus.finishing;
  info = none;
}

abbrev waiting : ChannelSource → ChargingSession ℤ
waiting platform = record (started_session 24 12 platform) { status = some SessionStatus.initiated }

abbrev finishing_site : Database ℤ
finishing_site = record site {
  connectors = connector ∷ [];
  charging_sessions = waiting ChannelSource.android ∷ waiting ChannelSource.qrpay ∷ [];
  device_transactions = running_transaction 11 5 ∷ [];
}

abbrev message : StatusMessage
message = record { uuid = "u"; connector_id = 1; status = ConnectorStatus.available; info = none }

status_is_lost_example : handle runtime finishing_site message "CP1" ≡ (finishing_site, [])
status_is_lost_example = status_is_lost runtime finishing_site message "CP1"
