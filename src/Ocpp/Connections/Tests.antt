-- ===== src/Ocpp/Connections/Tests.antt =====
-- The theorems about connections at a sample gateway.
use nest_js_project.Prelude.{All, ◌≡◌, refl, true, none, some, [], ◌∷◌}
use nest_js_project.Ocpp.Connections.{
  go_offline, is_silenced, get, Gateway, connect, close_starts, close_ends,
}
use nest_js_project.Prelude.Int.{ℤ}
use nest_js_project.Schema.{ConnectorStatus, Database}
use nest_js_project.Samples.{site, charger}
use nest_js_project.Ocpp.Connections.Offline.{IsOff, IsInactive, close_takes_offline}
use nest_js_project.Ocpp.Connections.Registry.{replaced_socket_is_silent}
use nest_js_project.Ocpp.Connections.LateClose.{late_close_loses_connection}

abbrev two_chargers : Gateway
two_chargers = record { connections = ("CP1", 1) ∷ ("CP2", 7) ∷ []; silenced = []; closing = [] }

abbrev plugged : Database ℤ
plugged = record site {
  connectors =
      record {
        id = 8;
        connector_id = "1";
        charger_id = 3;
        status = ConnectorStatus.available;
        info = none;
      }
      ∷ [];
}

reached_on_1 : get "CP1" two_chargers.connections ≡ some 1
unfolding get
reached_on_1 = refl

late_close_loses_connection_example :
    let connected = connect "CP1" 2 (close_starts "CP1" 1 two_chargers) in
    (connected.closing ≡ ("CP1", 1) ∷ [])
    × (get "CP1" connected.connections ≡ some 2)
    × (get "CP1" (close_ends "CP1" 1 connected).connections ≡ none)
late_close_loses_connection_example = late_close_loses_connection "CP1" 1 2 two_chargers refl

replaced_socket_is_silent_example :
    let connected = connect "CP1" 2 two_chargers in
    (get "CP2" connected.connections ≡ some 7)
    × (is_silenced 1 connected.silenced ≡ true)
    × (close_starts "CP1" 1 connected ≡ connected)
unfolding get
replaced_socket_is_silent_example =
    replaced_socket_is_silent "CP1" "CP2" 1 2 two_chargers reached_on_1 refl

close_takes_offline_example :
    let after = go_offline "CP1" plugged in
    All (IsInactive 3) after.chargers × All (IsOff 3) after.connectors
close_takes_offline_example = close_takes_offline "CP1" plugged charger refl
