-- ===== src/Tests/Billing.antt =====
-- The authorisation of one more scan of tenant 7.
use bevoac_dev.Prelude.{◌≡◌, refl, true, none, some, [], ◌∷◌}
use bevoac_dev.Prelude.Text.{text, text_eq}
use bevoac_dev.Prelude.Table.{Table, get}
use bevoac_dev.Api.Billing.{
  BillingConfig, accepted, TenantRow, usage, get_active_scan_count, Authorization, Request,
  authorize_scan, get_plan_definition, assert_backpressure, get_active_scan_limit, limit_of,
  charge_quota,
}
use bevoac_dev.Tests.Data.{pending_db}

abbrev pub billing_cfg : BillingConfig
billing_cfg = record {
  quota_free = 1;
  quota_standard = 20;
  quota_business = 100;
  resources_free = none;
  resources_standard = none;
  resources_business = none;
  resources_payg = none;
  payg_unit_price = 4900;
  active_limits = (text "standard", 2) ∷ [];
}

abbrev pub tenants : Table TenantRow
tenants = (7, record { plan_code = text "standard"; is_active = true }) ∷ []

abbrev request : Request
request = record {
  tenant_id = 7;
  billing_units = 1;
  cloud_provider = some (text "azure");
  scan_profile = some (text "standard");
  modules = text "entra" ∷ [];
}

abbrev authorization : Authorization
authorization = record {
  plan_code = text "standard";
  billing_units = 1;
  is_quota_included = true;
  quota_limit = some 20;
  resource_limit = some 500;
  active_limit = 2;
  active_count = 1;
  scans_used = 2;
  scans_remaining = some 18;
  payg_unit_price = 0;
  estimated_cost = 0;
}

authorized :
    (authorize_scan billing_cfg tenants request 20 300 pending_db).0 ≡ accepted authorization
unfolding authorize_scan get get_plan_definition text_eq assert_backpressure get_active_scan_limit
    limit_of get_active_scan_count charge_quota usage
authorized = refl
