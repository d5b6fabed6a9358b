-- ===== src/Ocpp/Connections.antt =====
-- gateway.ts and common/registry/connection.registry.ts: which socket a charger is reached on. A
-- socket is its number. The handler of a close waits for the database before it takes the charger out
-- of the registry, so that other events may come between its two halves.
pub mod Registry
pub mod LateClose
pub mod Offline
pub mod Online
mod Tests
use nest_js_project.Prelude.{
  ℕ, Bool, true, false, ◌&&◌, ◌||◌, not, Option, none, some, List, [], ◌∷◌, ◌++◌, String,
  if◌then◌else◌, ◌===◌, ◌==◌, find_one, find_all, update_where, holds, holds_text, is_some,
}
use nest_js_project.Schema.{ChargerStatus, ConnectorStatus, Charger, Connector, Database}

-- `Map.delete`, `Map.set` and `Map.get` of `activeConnections`.
unfoldable pub unregister : String → List (String × ℕ) → List (String × ℕ)
unregister charger_id [] = []
unregister charger_id (x ∷ xs) =
    let rest = unregister charger_id xs in if x.0 === charger_id then rest else x ∷ rest

unfoldable pub register : String → ℕ → List (String × ℕ) → List (String × ℕ)
register charger_id socket connections = (charger_id, socket) ∷ unregister charger_id connections

unfoldable pub get : String → List (String × ℕ) → Option ℕ
get charger_id [] = none
get charger_id (x ∷ xs) = if x.0 === charger_id then some x.1 else get charger_id xs

-- `silenced` are the sockets whose listeners were removed, `closing` the closes whose handlers wait.
pub record Gateway : Type 0 where
  pub connections : List (String × ℕ)
  pub silenced : List ℕ
  pub closing : List (String × ℕ)

abbrev pub is_silenced : ℕ → List ℕ → Bool
is_silenced socket [] = false
is_silenced socket (x ∷ xs) = x == socket || is_silenced socket xs

abbrev pub drop_stale : String → ℕ → Option ℕ → Gateway → Gateway
drop_stale charger_id socket none gateway = gateway
drop_stale charger_id socket (some existing) gateway =
    if existing == socket then gateway else record gateway {
      silenced = existing ∷ gateway.silenced;
      connections = unregister charger_id gateway.connections;
    }

-- The part of `handleConnection` that nothing comes between: a socket that the charger had before
-- loses its listeners and is terminated.
unfoldable pub connect : String → ℕ → Gateway → Gateway
connect charger_id socket gateway =
    let dropped = drop_stale charger_id socket (get charger_id gateway.connections) gateway in
    record dropped { connections = register charger_id socket dropped.connections }

-- A close event, whose handler first waits for the database; without a listener it is lost.
unfoldable pub close_starts : String → ℕ → Gateway → Gateway
close_starts charger_id socket gateway =
    if is_silenced socket gateway.silenced
    then gateway
    else record gateway { closing = (charger_id, socket) ∷ gateway.closing }

abbrev pub is_close_of : String → ℕ → String × ℕ → Bool
is_close_of charger_id socket x = x.0 === charger_id && x.1 == socket

-- The end of the handler of a close.
unfoldable pub close_ends : String → ℕ → Gateway → Gateway
close_ends charger_id socket gateway = record gateway {
  connections = unregister charger_id gateway.connections;
  closing = find_all (λ x. not (is_close_of charger_id socket x)) gateway.closing;
}

module _ {W : Type 0} where
  abbrev pub set_charger : ChargerStatus → Option Charger → Database W → Database W
  set_charger status none db = db
  set_charger status (some c) db = record db {
    chargers = update_where (λ r. r.id == c.id) (λ r. record r { status = status }) db.chargers;
  }

  abbrev pub set_connector : ConnectorStatus → Connector → Database W → Database W
  set_connector status cn db = record db {
    connectors =
        update_where (λ r. r.id == cn.id) (λ r. record r { status = status }) db.connectors;
  }

  abbrev pub connectors_of : Option Charger → Database W → List Connector
  connectors_of none db = []
  connectors_of (some c) db = find_all (λ cn. cn.charger_id == c.id) db.connectors

  unfoldable pub set_unavailable : List Connector → Database W → Database W
  set_unavailable [] db = db
  set_unavailable (cn ∷ cns) db =
      set_unavailable cns (set_connector ConnectorStatus.unavailable cn db)

  -- What the handler of a close waits for: the charger is inactive, its connectors unavailable.
  unfoldable pub go_offline : String → Database W → Database W
  go_offline charger_id db =
      let charger = find_one (λ c. c.charger_id === charger_id) db.chargers in
      let inactive = set_charger ChargerStatus.inactive charger db in
      set_unavailable (connectors_of charger inactive) inactive
