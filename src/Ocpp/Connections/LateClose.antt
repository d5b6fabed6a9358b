-- ===== src/Ocpp/Connections/LateClose.antt =====
-- A close whose handler ends after the charger has connected again: gateway.ts.
use nest_js_project.Prelude.{ℕ, ◌≡◌, refl, ◌∙◌, false, none, some, ◌∷◌, String}
use nest_js_project.Ocpp.Connections.{is_silenced, get, Gateway, connect, close_starts, close_ends}
use nest_js_project.Ocpp.Connections.Registry.{
  get-unregister_self, connect_reaches, connect-closing,
}

close_waits :
    (c : String) (old : ℕ) (g : Gateway)
    → is_silenced old g.silenced ≡ false
    → (close_starts c old g).closing ≡ (c, old) ∷ g.closing
unfolding close_starts
close_waits c old g listened = rw listened refl

-- A socket with its listeners starts to close, and the charger connects on another one before the
-- handler of the close is done, which still waits then. The charger is reached on the new socket in
-- between, and on none once that handler ends, though the new socket has not closed.
pub late_close_loses_connection :
    (c : String) (old new : ℕ) (g : Gateway)
    → is_silenced old g.silenced ≡ false
    → let connected = connect c new (close_starts c old g) in
      (connected.closing ≡ (c, old) ∷ g.closing)
      × (get c connected.connections ≡ some new)
      × (get c (close_ends c old connected).connections ≡ none)
unfolding close_ends
late_close_loses_connection c old new g listened =
    let connected = connect c new (close_starts c old g) in
    (
      connect-closing c new (close_starts c old g) ∙ close_waits c old g listened,
      connect_reaches c new (close_starts c old g),
      get-unregister_self c connected.connections,
    )
