-- ===== src/Scheduler/Health/Tests.antt =====
-- Two partners, one of which answers.
use nest_js_project.Prelude.{◌≡◌, refl, some, [], ◌∷◌, map, if◌then◌else◌, ◌===◌}
use nest_js_project.Prelude.Int.{ℤ}
use nest_js_project.Schema.{OcpiConnectionStatus, Database}
use nest_js_project.Samples.{site}
use nest_js_project.Scheduler.Health.{
  HttpAnswer, OcpiHttp, find_version, find_locations_sender_endpoint, check_cpo,
  handle_check_cpo_connections,
}
use nest_js_project.Scheduler.Health.Reach.{checked, handle_check_cpo_connections-checked}

abbrev http : OcpiHttp
http = record {
  get = λ url token.
      if url === "https://a?offset=0&limit=10"
      then HttpAnswer.answered_with 1000
      else HttpAnswer.failed;
  base64 = λ s. s;
  curr_version = "2.2.1";
}

abbrev partners : Database ℤ
partners = record site {
  ocpi_cpos =
      record { id = 1; token_b = some "t"; status = OcpiConnectionStatus.offline }
      ∷ record { id = 2; token_b = some "u"; status = OcpiConnectionStatus.connected }
      ∷ [];
  ocpi_cpo_versions = record { id = 7; cpo_id = 1; version = "2.2.1" } ∷ [];
  ocpi_cpo_version_endpoints =
      record {
        version_id = 7;
        identifier = some "locations";
        role = some "SENDER";
        url = some "https://a";
      }
      ∷ [];
}

health_test :
    (handle_check_cpo_connections http partners).ocpi_cpos
    ≡ record { id = 1; token_b = some "t"; status = OcpiConnectionStatus.connected }
      ∷ record { id = 2; token_b = some "u"; status = OcpiConnectionStatus.offline }
      ∷ []
unfolding handle_check_cpo_connections check_cpo find_version find_locations_sender_endpoint
health_test = refl

handle_check_cpo_connections-checked_example :
    handle_check_cpo_connections http partners
    ≡ record partners { ocpi_cpos = map (checked http partners) partners.ocpi_cpos }
handle_check_cpo_connections-checked_example =
    handle_check_cpo_connections-checked http partners ((refl, tt), (tt, tt))
