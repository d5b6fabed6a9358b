-- ===== src/Schema/Contracts.antt =====
-- The rows of vendors, cposettlements, clientamcs, clientsupports, ocpicpos, ocpicpoversions and
-- ocpicpoversionendpoints.
use nest_js_project.Prelude.{ℕ, Bool, true, false, Option, some, String}

pub record Vendor : Type 0 where
  pub id : ℕ
  pub trans_fee_perc : Option String
  pub client_id : ℕ

-- The DECIMAL columns hold numbers of two digits.
pub record CpoSettlement (W : Type 0) : Type 0 where
  pub charger_id : ℕ
  pub vendor_id : ℕ
  pub client_id : ℕ
  pub from_date : Option ℕ
  pub to_date : Option ℕ
  pub platform_fee : Option W
  pub extra_fee : Option W
  pub total_amount : Option W
  pub transaction_fee : Option W
  pub net_payble : Option W
  pub status : Option String

pub data ClientAmcStatus : Type 0 where
  active expired : ClientAmcStatus

pub record ClientAmc (W : Type 0) : Type 0 where
  pub id : ℕ
  pub client_id : ℕ
  pub start_date : Option ℕ
  pub end_date : Option ℕ
  pub standard_amc_hours : Option W
  pub remaining_amc_hours : Option W
  pub status : Option ClientAmcStatus
  pub last_cycle_processed_at : Option ℕ

pub data SupportTicketStatus : Type 0 where
  pending opened closed : SupportTicketStatus

pub record ClientSupport (W : Type 0) : Type 0 where
  pub client_id : ℕ
  pub deducted_amc_hours : Option W
  pub status : SupportTicketStatus
  pub created_at : ℕ

pub data OcpiConnectionStatus : Type 0 where
  connected offline planned suspended : OcpiConnectionStatus

pub record OcpiCpo : Type 0 where
  pub id : ℕ
  pub token_b : Option String
  pub status : OcpiConnectionStatus

pub record OcpiCpoVersion : Type 0 where
  pub id : ℕ
  pub cpo_id : ℕ
  pub version : String

pub record OcpiCpoVersionEndpoint : Type 0 where
  pub version_id : ℕ
  pub identifier : Option String
  pub role : Option String
  pub url : Option String

abbrev pub is_active_amc : Option ClientAmcStatus → Bool
is_active_amc (some ClientAmcStatus.active) = true
is_active_amc _ = false

abbrev pub is_closed : SupportTicketStatus → Bool
is_closed SupportTicketStatus.closed = true
is_closed _ = false
