-- ===== src/Ocpp/Connections/Registry.antt =====
-- The registry is a map: common/registry/connection.registry.ts, and `handleConnection` of
-- gateway.ts.
use nest_js_project.Prelude.{
  ℕ, ◌≡◌, refl, ap, sym, ◌∙◌, inl, inr, Bool-cases, true, false, Option, none, some, List, [], ◌∷◌,
  String, if◌then◌else◌, ◌===◌, ◌==◌, beq_self, text_beq_self, eq_of_text_beq,
}
use nest_js_project.Ocpp.Connections.{
  unregister, register, get, Gateway, drop_stale, is_silenced, connect, close_starts,
}

pub get-unregister_self : (c : String) (m : List (String × ℕ)) → get c (unregister c m) ≡ none
unfolding get unregister
get-unregister_self c [] = refl
get-unregister_self c (x ∷ xs) = elim (Bool-cases (x.0 === c)) [
  | inl same ↦ rw same (get-unregister_self c xs)
  | inr other ↦ rw (other, other) (get-unregister_self c xs)
]

other_too : (a c d : String) → a === c ≡ true → c === d ≡ false → a === d ≡ false
other_too a c d same other = ap (λ t. t === d) (eq_of_text_beq a c same) ∙ other

get-unregister_other :
    (c d : String) (m : List (String × ℕ)) → c === d ≡ false → get d (unregister c m) ≡ get d m
unfolding get unregister
get-unregister_other c d [] other = refl
get-unregister_other c d (x ∷ xs) other = elim (Bool-cases (x.0 === c)) [
  | inl same ↦ rw (same, other_too x.0 c d same other) (get-unregister_other c d xs other)
  | inr differs ↦ elim (Bool-cases (x.0 === d)) [
    | inl here ↦ rw (differs, here) refl
    | inr elsewhere ↦ rw (differs, elsewhere) (get-unregister_other c d xs other)
  ]
]

get-drop_stale :
    (c d : String) (socket : ℕ) (found : Option ℕ) (g : Gateway)
    → c === d ≡ false
    → get d (drop_stale c socket found g).connections ≡ get d g.connections
get-drop_stale c d socket none g other = refl
get-drop_stale c d socket (some existing) g other = elim (Bool-cases (existing == socket)) [
  | inl same ↦ rw same refl
  | inr stale ↦ rw stale (get-unregister_other c d g.connections other)
]

get-register_other :
    (c d : String) (socket : ℕ) (m : List (String × ℕ))
    → c === d ≡ false
    → get d (register c socket m) ≡ get d (unregister c m)
unfolding get register
get-register_other c d socket m other = rw other refl

-- A charger that connects is reached on the new socket, whatever there was before.
pub connect_reaches :
    (c : String) (socket : ℕ) (g : Gateway) → get c (connect c socket g).connections ≡ some socket
unfolding get connect register
connect_reaches c socket g = rw (text_beq_self c) refl

connect_sets_one :
    (c d : String) (socket : ℕ) (g : Gateway)
    → get d (connect c socket g).connections
      ≡ (if c === d then some socket else get d g.connections)
unfolding connect
connect_sets_one c d socket g = elim (Bool-cases (c === d)) [
  | inl same ↦
      ap (λ t. get t (connect c socket g).connections) (sym (eq_of_text_beq c d same))
      ∙ connect_reaches c socket g
      ∙ rw same refl
  | inr other ↦
      let dropped = drop_stale c socket (get c g.connections) g in
      get-register_other c d socket dropped.connections other
      ∙ get-unregister_other c d dropped.connections other
      ∙ get-drop_stale c d socket (get c g.connections) g other
      ∙ rw other refl
]

drop_stale-closing :
    (c : String) (socket : ℕ) (found : Option ℕ) (g : Gateway)
    → (drop_stale c socket found g).closing ≡ g.closing
drop_stale-closing c socket none g = refl
drop_stale-closing c socket (some existing) g = elim (Bool-cases (existing == socket)) [
  | inl same ↦ rw same refl
  | inr stale ↦ rw stale refl
]

pub connect-closing :
    (c : String) (socket : ℕ) (g : Gateway) → (connect c socket g).closing ≡ g.closing
unfolding connect
connect-closing c socket g = drop_stale-closing c socket (get c g.connections) g

-- The socket that a new connection of its charger replaces has lost its listeners.
drop_stale-silences :
    (c : String) (old new : ℕ) (g : Gateway)
    → old == new ≡ false
    → is_silenced old (drop_stale c new (some old) g).silenced ≡ true
drop_stale-silences c old new g stale = rw (stale, beq_self old) refl

-- A charger that connects while it is reached on another socket is reached on the new one, and all
-- other chargers as before; the socket that it replaces is silenced, so that its close, whenever it
-- comes, changes nothing.
pub replaced_socket_is_silent :
    (c d : String) (old new : ℕ) (g : Gateway)
    → get c g.connections ≡ some old
    → old == new ≡ false
    → let connected = connect c new g in
      (get d connected.connections ≡ (if c === d then some new else get d g.connections))
      × (is_silenced old connected.silenced ≡ true)
      × (close_starts c old connected ≡ connected)
unfolding connect close_starts
replaced_socket_is_silent c d old new g reached stale =
    let dropped = drop_stale c new (some old) g in
    let silent = drop_stale-silences c old new g stale in
    (connect_sets_one c d new g, rw reached silent, rw (reached, silent) refl)
