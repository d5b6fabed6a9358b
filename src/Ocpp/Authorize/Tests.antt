-- ===== src/Ocpp/Authorize/Tests.antt =====
-- A tag whose last day is over, at the sample charger.
use nest_js_project.Prelude.{◌===◌, find_one, ◌≡◌, refl, none, some, [], ◌∷◌, String}
use nest_js_project.Prelude.Int.{ℤ}
use nest_js_project.Schema.{Charger, RfidTag, Database}
use nest_js_project.Whole.{whole_number}
use nest_js_project.Samples.{clock, site}
use nest_js_project.Ocpp.Start.Frame.{session_prefix}
use nest_js_project.Ocpp.Authorize.Known.{Knows, authorized_tag_is_known}
use nest_js_project.Ocpp.Authorize.{
  AuthorizeMessage, AuthorizeStatus, handle, authorize_tag, authorize_at, authorize_session,
}

abbrev tag : RfidTag ℤ
tag = record {
  id = 40;
  master_rfid_tag = some 40;
  rf_id_tag = "TAG1";
  client_id = 1;
  user_id = some 5;
  fleet_id = none;
  fleet_group_id = none;
  expiry_date = some 100;
  max_amount = none;
}

abbrev old_tags : Database ℤ
old_tags = record site { rfid_tags = tag ∷ [] }

abbrev ask : String → AuthorizeMessage
ask t = record { uuid = "u1"; id_tag = some t }

-- The tag is known but expired.
expired_test : (handle clock old_tags (ask "TAG1") "CP1").status ≡ AuthorizeStatus.expired
unfolding handle authorize_tag authorize_at session_prefix
expired_test = refl

-- The code of the sample user's session, which has started already, is accepted.
session_test : (handle clock site (ask "NEX1") "CP1").status ≡ AuthorizeStatus.accepted
unfolding handle authorize_tag authorize_at authorize_session session_prefix
session_test = refl

authorized_tag_is_known_example :
    (id_tag : String) × (some "NEX1" ≡ some id_tag)
    × ((charger : Charger) × (find_one (λ c. c.charger_id === "CP1") site.chargers ≡ some charger)
        × Knows clock site id_tag charger)
authorized_tag_is_known_example = authorized_tag_is_known clock site (ask "NEX1") "CP1" session_test
