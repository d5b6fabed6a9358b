-- ===== src/Scheduler/Health/Reach.antt =====
-- apps/scheduler/src/cron/ocpi-health.cron.ts: the status of a partner says whether it is reachable.
use nest_js_project.Prelude.{
  ◌≡◌, refl, ap, ◌∙◌, Bool, true, false, ◌&&◌, not, Bool-cases, Option-cases, arith, map-pointwise,
  inl, inr, Option, none, some, List, map, String, if◌then◌else◌, ◌===◌, ◌==◌, UniqueKeys,
  update_each-map,
}
use nest_js_project.Prelude.Text.{◌<>◌}
use nest_js_project.Schema.{
  OcpiCpo, OcpiCpoVersion, OcpiCpoVersionEndpoint, OcpiConnectionStatus, Database,
}
use nest_js_project.Scheduler.Health.{
  HttpAnswer, OcpiHttp, encode_base64, is_checked, is_connected, find_version,
  find_locations_sender_endpoint, set_status, on_answer, on_url, on_endpoint, on_version, check_cpo,
  cpo_id, handle_check_cpo_connections,
}

abbrev is_success_answer : HttpAnswer → Bool
is_success_answer (HttpAnswer.answered_with code) = code == 1000
is_success_answer _ = false

abbrev url_of : Option OcpiCpoVersionEndpoint → Option String
url_of none = none
url_of (some endpoint) = endpoint.url

abbrev endpoint_of :
    List OcpiCpoVersionEndpoint → Option OcpiCpoVersion → Option OcpiCpoVersionEndpoint
endpoint_of endpoints none = none
endpoint_of endpoints (some version) = find_locations_sender_endpoint endpoints version.id

abbrev answers : OcpiHttp → OcpiCpo → Option String → Bool
answers http cpo none = false
answers http cpo (some url) =
    not (url === "")
    && is_success_answer (http.get (url <> "?offset=0&limit=10") (encode_base64 http cpo.token_b))

-- The partner has registered the current version with an address for locations, and answers there.
abbrev pub is_reachable : {W : Type 0} → OcpiHttp → Database W → OcpiCpo → Bool
is_reachable http db cpo = answers http cpo (
    url_of (
      endpoint_of db.ocpi_cpo_version_endpoints
        (find_version db.ocpi_cpo_versions cpo.id http.curr_version)))

abbrev pub status_by : Bool → OcpiConnectionStatus
status_by reachable =
    if reachable then OcpiConnectionStatus.connected else OcpiConnectionStatus.offline

connected_of :
    (s : OcpiConnectionStatus) → is_connected s ≡ true → s ≡ OcpiConnectionStatus.connected
connected_of OcpiConnectionStatus.connected h = refl
connected_of OcpiConnectionStatus.offline h = cc
connected_of OcpiConnectionStatus.planned h = cc
connected_of OcpiConnectionStatus.suspended h = cc

already_connected :
    (cpo : OcpiCpo)
    → (if is_connected cpo.status then cpo else set_status OcpiConnectionStatus.connected cpo)
      ≡ set_status OcpiConnectionStatus.connected cpo
already_connected cpo = elim (Bool-cases (is_connected cpo.status)) [
  | inl on ↦ rw on (ap (λ s. set_status s cpo) (connected_of cpo.status on))
  | inr off ↦ rw off refl
]

on_answer-status :
    (cpo : OcpiCpo) (answer : HttpAnswer)
    → on_answer cpo answer cpo ≡ set_status (status_by (is_success_answer answer)) cpo
on_answer-status cpo HttpAnswer.failed = refl
on_answer-status cpo HttpAnswer.no_data = refl
on_answer-status cpo (HttpAnswer.answered_with code) = elim (Bool-cases (code == 1000)) [
  | inl success ↦ rw success (already_connected cpo)
  | inr other ↦ rw other refl
]

on_url-status :
    (http : OcpiHttp) (cpo : OcpiCpo) (url : Option String)
    → on_url http cpo url cpo ≡ set_status (status_by (answers http cpo url)) cpo
on_url-status http cpo none = refl
on_url-status http cpo (some url) = elim (Bool-cases (url === "")) [
  | inl empty ↦ rw empty refl
  | inr there ↦ rw there (
      on_answer-status cpo
        (http.get (url <> "?offset=0&limit=10") (encode_base64 http cpo.token_b)))
]

on_endpoint-status :
    (http : OcpiHttp) (cpo : OcpiCpo) (endpoint : Option OcpiCpoVersionEndpoint)
    → on_endpoint http cpo endpoint cpo
      ≡ set_status (status_by (answers http cpo (url_of endpoint))) cpo
on_endpoint-status http cpo none = refl
on_endpoint-status http cpo (some endpoint) = on_url-status http cpo endpoint.url

on_version-status :
    (http : OcpiHttp) (endpoints : List OcpiCpoVersionEndpoint) (cpo : OcpiCpo)
    (version : Option OcpiCpoVersion)
    → on_version http endpoints cpo version cpo
      ≡ set_status (status_by (answers http cpo (url_of (endpoint_of endpoints version)))) cpo
on_version-status http endpoints cpo none = refl
on_version-status http endpoints cpo (some version) =
    on_endpoint-status http cpo (find_locations_sender_endpoint endpoints version.id)

-- What the check makes of one partner.
abbrev pub checked : {W : Type 0} → OcpiHttp → Database W → OcpiCpo → OcpiCpo
checked http db cpo =
    if is_checked cpo then set_status (status_by (is_reachable http db cpo)) cpo else cpo

check_cpo-checked :
    {W : Type 0} (http : OcpiHttp) (db : Database W) (cpo : OcpiCpo)
    → (if is_checked cpo
        then check_cpo http db.ocpi_cpo_versions db.ocpi_cpo_version_endpoints cpo cpo
        else cpo)
      ≡ checked http db cpo
unfolding check_cpo
check_cpo-checked http db cpo =
    ap (λ x. if is_checked cpo then x else cpo)
      (on_version-status http db.ocpi_cpo_version_endpoints cpo
        (find_version db.ocpi_cpo_versions cpo.id http.curr_version))

on_answer-id :
    (cpo : OcpiCpo) (answer : HttpAnswer) (row : OcpiCpo) → (on_answer cpo answer row).id ≡ row.id
on_answer-id cpo HttpAnswer.failed row = refl
on_answer-id cpo HttpAnswer.no_data row = refl
on_answer-id cpo (HttpAnswer.answered_with code) row = ground arith

on_url-id :
    (http : OcpiHttp) (cpo : OcpiCpo) (url : Option String) (row : OcpiCpo)
    → (on_url http cpo url row).id ≡ row.id
on_url-id http cpo none row = refl
on_url-id http cpo (some url) row = elim (Bool-cases (url === "")) [
  | inl empty ↦ rw empty refl
  | inr there ↦ rw there (
      on_answer-id cpo (http.get (url <> "?offset=0&limit=10") (encode_base64 http cpo.token_b))
        row)
]

on_version-id :
    (http : OcpiHttp) (endpoints : List OcpiCpoVersionEndpoint) (cpo : OcpiCpo)
    (version : Option OcpiCpoVersion) (row : OcpiCpo)
    → (on_version http endpoints cpo version row).id ≡ row.id
on_version-id http endpoints cpo none row = refl
on_version-id http endpoints cpo (some version) row =
    elim (Option-cases (find_locations_sender_endpoint endpoints version.id)) [
      | inl missing ↦ rw missing refl
      | inr (endpoint, found) ↦ rw found (on_url-id http cpo endpoint.url row)
    ]

check_cpo-id :
    (http : OcpiHttp) (versions : List OcpiCpoVersion) (endpoints : List OcpiCpoVersionEndpoint)
    (cpo row : OcpiCpo)
    → (check_cpo http versions endpoints cpo row).id ≡ row.id
unfolding check_cpo
check_cpo-id http versions endpoints cpo row =
    on_version-id http endpoints cpo (find_version versions cpo.id http.curr_version) row

-- The check of the partners sets each that is neither planned nor suspended to connected if it is
-- reachable, and else to offline, and leaves the others alone. The keys of the table are unique.
pub handle_check_cpo_connections-checked :
    {W : Type 0} (http : OcpiHttp) (db : Database W)
    → UniqueKeys cpo_id db.ocpi_cpos
    → handle_check_cpo_connections http db
      ≡ record db { ocpi_cpos = map (checked http db) db.ocpi_cpos }
unfolding handle_check_cpo_connections
handle_check_cpo_connections-checked http db unique =
    let step = check_cpo http db.ocpi_cpo_versions db.ocpi_cpo_version_endpoints in
    ap (λ xs. record db { ocpi_cpos = xs })
      (update_each-map cpo_id step is_checked
          (check_cpo-id http db.ocpi_cpo_versions db.ocpi_cpo_version_endpoints) db.ocpi_cpos unique
        ∙ map-pointwise (λ c. if is_checked c then step c c else c) (checked http db)
            (check_cpo-checked http db) db.ocpi_cpos)
