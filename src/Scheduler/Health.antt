-- ===== src/Scheduler/Health.antt =====
-- apps/scheduler/src/cron/ocpi-health.cron.ts, with repositories/ocpi-health.repository.ts: every five
-- minutes each roaming partner is asked for its locations, and is online if it answers.
pub mod Reach
mod Tests
use nest_js_project.Prelude.{
  ℕ, Bool, true, false, ◌&&◌, not, Option, none, some, List, [], ◌∷◌, String, if◌then◌else◌, ◌===◌,
  ◌==◌, find_one, find_all, holds_text, filled, get_or_else, update_each,
}
use nest_js_project.Prelude.Text.{◌<>◌}
use nest_js_project.Schema.{
  OcpiCpo, OcpiCpoVersion, OcpiCpoVersionEndpoint, OcpiConnectionStatus, Database,
}

-- What comes back from `getMethodOcpi`: the call throws, or its answer has no data, or one with a
-- status code.
pub data HttpAnswer : Type 0 where
  failed no_data : HttpAnswer
  answered_with : ℕ → HttpAnswer

pub record OcpiHttp : Type 0 where
  pub get : String → String → HttpAnswer  -- `getMethodOcpi(url, token)`
  pub base64 : String → String  -- `Buffer.from(value, 'utf8').toString('base64')`
  pub curr_version : String  -- `OCPI_CURR_VERSION`

-- modules/ocpi/src/utils/ocpi-response.util.ts.
abbrev pub encode_base64 : OcpiHttp → Option String → String
encode_base64 http value = if filled value then http.base64 (get_or_else value "") else ""

-- `status: Not(In(['PLANNED', 'SUSPENDED']))`.
abbrev pub is_checked : OcpiCpo → Bool
is_checked cpo = elim cpo.status [
  | OcpiConnectionStatus.planned ↦ false
  | OcpiConnectionStatus.suspended ↦ false
  | _ ↦ true
]

abbrev pub is_connected : OcpiConnectionStatus → Bool
is_connected OcpiConnectionStatus.connected = true
is_connected _ = false

unfoldable pub find_version : List OcpiCpoVersion → ℕ → String → Option OcpiCpoVersion
find_version versions cpo_id version =
    find_one (λ v. v.cpo_id == cpo_id && v.version === version) versions

unfoldable pub find_locations_sender_endpoint :
    List OcpiCpoVersionEndpoint → ℕ → Option OcpiCpoVersionEndpoint
find_locations_sender_endpoint endpoints version_id =
    find_one
      (λ e.
        e.version_id == version_id
        && holds_text e.identifier (some "locations")
        && holds_text e.role (some "SENDER"))
      endpoints

abbrev pub set_status : OcpiConnectionStatus → OcpiCpo → OcpiCpo
set_status status row = record row { status = status }

-- The answer's status code is 1000, and the row is written only if it changes.
abbrev pub on_answer : OcpiCpo → HttpAnswer → OcpiCpo → OcpiCpo
on_answer cpo HttpAnswer.failed row = set_status OcpiConnectionStatus.offline row
on_answer cpo HttpAnswer.no_data row = set_status OcpiConnectionStatus.offline row
on_answer cpo (HttpAnswer.answered_with code) row =
    if code == 1000
    then (if is_connected cpo.status then row else set_status OcpiConnectionStatus.connected row)
    else set_status OcpiConnectionStatus.offline row

abbrev pub on_url : OcpiHttp → OcpiCpo → Option String → OcpiCpo → OcpiCpo
on_url http cpo none row = set_status OcpiConnectionStatus.offline row
on_url http cpo (some url) row =
    if url === ""
    then set_status OcpiConnectionStatus.offline row
    else on_answer cpo (http.get (url <> "?offset=0&limit=10") (encode_base64 http cpo.token_b)) row

abbrev pub on_endpoint : OcpiHttp → OcpiCpo → Option OcpiCpoVersionEndpoint → OcpiCpo → OcpiCpo
on_endpoint http cpo none row = set_status OcpiConnectionStatus.offline row
on_endpoint http cpo (some endpoint) row = on_url http cpo endpoint.url row

abbrev pub on_version :
    OcpiHttp → List OcpiCpoVersionEndpoint → OcpiCpo → Option OcpiCpoVersion → OcpiCpo → OcpiCpo
on_version http endpoints cpo none row = set_status OcpiConnectionStatus.offline row
on_version http endpoints cpo (some version) row =
    on_endpoint http cpo (find_locations_sender_endpoint endpoints version.id) row

-- The body of the loop: what becomes of the partner's row.
unfoldable pub check_cpo :
    OcpiHttp → List OcpiCpoVersion → List OcpiCpoVersionEndpoint → OcpiCpo → OcpiCpo → OcpiCpo
check_cpo http versions endpoints cpo row =
    on_version http endpoints cpo (find_version versions cpo.id http.curr_version) row

abbrev pub cpo_id : OcpiCpo → ℕ
cpo_id cpo = cpo.id

unfoldable pub handle_check_cpo_connections : {W : Type 0} → OcpiHttp → Database W → Database W
handle_check_cpo_connections http db = record db {
  ocpi_cpos =
      update_each cpo_id (check_cpo http db.ocpi_cpo_versions db.ocpi_cpo_version_endpoints)
        (find_all is_checked db.ocpi_cpos) db.ocpi_cpos;
}
