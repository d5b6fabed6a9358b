-- ===== src/Ocpp/Connections/Offline.antt =====
-- What a close writes: the handler of `close` in gateway.ts.
use nest_js_project.Prelude.{
  arith, subst, ℕ, ◌≡◌, refl, ap, sym, ◌∙◌, Bool, Bool-cases, inl, inr, true, false, ◌||◌, some,
  List, [], ◌∷◌, String, map, if◌then◌else◌, ◌==◌, ◌===◌, find_one, find_all, update_where, All,
  beq_self,
}
use nest_js_project.Schema.{ChargerStatus, ConnectorStatus, Charger, Connector, Database}
use nest_js_project.Ocpp.Connections.{set_charger, set_connector, set_unavailable, go_offline}

abbrev off : Connector → Connector
off cn = record cn { status = ConnectorStatus.unavailable }

abbrev listed : ℕ → List Connector → Bool
listed id [] = false
listed id (cn ∷ cns) = (id == cn.id) || listed id cns

abbrev off_if : Bool → Connector → Connector
off_if b cn = if b then off cn else cn

abbrev off_all : List Connector → List Connector → List Connector
off_all cns = map (λ r. off_if (listed r.id cns) r)

off_twice : (a b : Bool) (r : Connector) → off_if b (off_if a r) ≡ off_if (a || b) r
off_twice true true r = refl
off_twice true false r = refl
off_twice false b r = refl

listed-off_if :
    (b : Bool) (r : Connector) (cns : List Connector) → listed (off_if b r).id cns ≡ listed r.id cns
listed-off_if true r cns = refl
listed-off_if false r cns = refl

off_all-none : (rows : List Connector) → off_all [] rows ≡ rows
off_all-none [] = refl
off_all-none (r ∷ rs) = ap (λ (xs : List Connector). r ∷ xs) (off_all-none rs)

off_all-one :
    (cn : Connector) (cns rows : List Connector)
    → off_all cns (update_where (λ r. r.id == cn.id) off rows) ≡ off_all (cn ∷ cns) rows
off_all-one cn cns [] = refl
off_all-one cn cns (r ∷ rs) =
    let here = r.id == cn.id in
    let first : off_if (listed (off_if here r).id cns) (off_if here r)
        ≡ off_if (here || listed r.id cns) r =
      ap (λ b. off_if b (off_if here r)) (listed-off_if here r cns)
      ∙ off_twice here (listed r.id cns) r in
    rw (first, off_all-one cn cns rs) refl

module _ {W : Type 0} where
  set_unavailable-connectors :
      (cns : List Connector) (db : Database W)
      → (set_unavailable cns db).connectors ≡ off_all cns db.connectors
  unfolding set_unavailable
  set_unavailable-connectors [] db = sym (off_all-none db.connectors)
  set_unavailable-connectors (cn ∷ cns) db =
      set_unavailable-connectors cns (set_connector ConnectorStatus.unavailable cn db)
      ∙ off_all-one cn cns db.connectors

  set_unavailable-chargers :
      (cns : List Connector) (db : Database W) → (set_unavailable cns db).chargers ≡ db.chargers
  unfolding set_unavailable
  set_unavailable-chargers [] db = refl
  set_unavailable-chargers (cn ∷ cns) db =
      set_unavailable-chargers cns (set_connector ConnectorStatus.unavailable cn db)

-- The rows that a list of rows has are turned off.
abbrev pub IsOff : ℕ → Connector → Type 0
IsOff key r = r.charger_id == key ≡ true → r.status ≡ ConnectorStatus.unavailable

off_if-IsOff :
    (key : ℕ) (b : Bool) (r : Connector)
    → (r.charger_id == key ≡ true → b ≡ true)
    → IsOff key (off_if b r)
off_if-IsOff key true r h mine = refl
off_if-IsOff key false r h mine = absurd (false_true (h mine))
  where
    false_true : false ≡ true → ⊥
    false_true e = cc

abbrev Listed : ℕ → List Connector → List Connector → Type 0
Listed key cns rows = All (λ r. r.charger_id == key ≡ true → listed r.id cns ≡ true) rows

Listed-more :
    (key : ℕ) (cn : Connector) (cns rows : List Connector)
    → Listed key cns rows
    → Listed key (cn ∷ cns) rows
Listed-more key cn cns [] h = tt
Listed-more key cn cns (r ∷ rs) (first, rest) =
    (λ mine. ground (arith, first mine), Listed-more key cn cns rs rest)

find_all-Listed :
    (key : ℕ) (rows : List Connector) → Listed key (find_all (λ cn. cn.charger_id == key) rows) rows
find_all-Listed key [] = tt
find_all-Listed key (r ∷ rs) =
    let test = λ (cn : Connector). cn.charger_id == key in
    let rest = find_all test rs in
    elim (Bool-cases (r.charger_id == key)) [
      | inl mine ↦
          let found : find_all test (r ∷ rs) ≡ r ∷ rest = rw mine refl in
          subst (λ (cns : List Connector). Listed key cns (r ∷ rs)) (sym found)
            (λ _. ground (arith, beq_self r.id), Listed-more key r rest rs (find_all-Listed key rs))
      | inr other ↦
          let found : find_all test (r ∷ rs) ≡ rest = rw other refl in
          subst (λ (cns : List Connector). Listed key cns (r ∷ rs)) (sym found)
            (λ h. cc, find_all-Listed key rs)
    ]

off_all-IsOff :
    (key : ℕ) (cns rows : List Connector) → Listed key cns rows → All (IsOff key) (off_all cns rows)
off_all-IsOff key cns [] h = tt
off_all-IsOff key cns (r ∷ rs) (first, rest) =
    (off_if-IsOff key (listed r.id cns) r first, off_all-IsOff key cns rs rest)

abbrev pub IsInactive : ℕ → Charger → Type 0
IsInactive key r = r.id == key ≡ true → r.status ≡ ChargerStatus.inactive

set_charger-IsInactive :
    (key : ℕ) (rows : List Charger)
    → All
        (IsInactive key)
        (update_where (λ r. r.id == key) (λ r. record r { status = ChargerStatus.inactive }) rows)
set_charger-IsInactive key [] = tt
set_charger-IsInactive key (r ∷ rs) = elim (Bool-cases (r.id == key)) [
  | inl mine ↦ rw mine (λ _. refl, set_charger-IsInactive key rs)
  | inr other ↦ rw other (λ h. cc, set_charger-IsInactive key rs)
]

-- After the writes of a close, the known charger whose socket closed is inactive, and all its
-- connectors are unavailable.
pub close_takes_offline :
    {W : Type 0} (charger_id : String) (db : Database W) (charger : Charger)
    → find_one (λ c. c.charger_id === charger_id) db.chargers ≡ some charger
    → let after = go_offline charger_id db in
      All (IsInactive charger.id) after.chargers × All (IsOff charger.id) after.connectors
unfolding go_offline
close_takes_offline charger_id db charger known =
    let mine = find_all (λ (cn : Connector). cn.charger_id == charger.id) db.connectors in
    let inactive = set_charger ChargerStatus.inactive (some charger) db in
    rw (known, set_unavailable-chargers mine inactive, set_unavailable-connectors mine inactive)
      (
        set_charger-IsInactive charger.id db.chargers,
        off_all-IsOff charger.id mine db.connectors (find_all-Listed charger.id db.connectors),
      )
