-- ===== src/Worker/Providers.antt =====
-- providers/provider-registry.js: which clouds the worker runs, and the refusal of the others.
use bevoac_dev.Prelude.{
  Bool, true, false, ◌&&◌, ◌||◌, get_or, Option, none, some, ◌++◌, if◌then◌else◌,
}
use bevoac_dev.Prelude.Text.{Text, text, text_eq, trim, to_lower}
use bevoac_dev.Worker.Errors.{Outcome, ok, raised}
use bevoac_dev.Worker.Store.Transaction.{plain_error}

pub record ProviderStatus : Type 0 where
  pub key : Text
  pub runtime_enabled : Bool
  pub scanner_implemented : Bool
  pub reason : Option Text

abbrev pub azure : ProviderStatus
azure = record {
  key = text "azure";
  runtime_enabled = true;
  scanner_implemented = true;
  reason = none;
}

abbrev pub aws : ProviderStatus
aws = record {
  key = text "aws";
  runtime_enabled = false;
  scanner_implemented = false;
  reason = some (
      (text "AWS remains fail-closed until the AssumeRole onboarding flow, "
        ++ (text "account and region ownership checks, scanners, normalized findings, "
            ++ text "resource preflight, billing and integration tests are complete.")));
}

abbrev pub gcp : ProviderStatus
gcp = record {
  key = text "gcp";
  runtime_enabled = false;
  scanner_implemented = false;
  reason = some (
      (text "GCP is declared for architectural compatibility only and has no "
        ++ text "runtime scanner or onboarding implementation in V6.2.0."));
}

unfoldable pub normalize_provider : Text → Text
unfolding trim to_lower
normalize_provider provider = to_lower (trim provider)

-- The lower-case names that every object inherits: `PROVIDER_STATUS[key]` finds those too, as an object
-- with none of the fields.
unfoldable pub is_inherited_name : Text → Bool
unfolding text_eq
is_inherited_name key = text_eq key (text "constructor") || text_eq key (text "__proto__")

abbrev pub bare_status : Text → ProviderStatus
bare_status key = record {
  key = key;
  runtime_enabled = false;
  scanner_implemented = false;
  reason = none;
}

unfoldable pub get_provider_status : Text → Option ProviderStatus
unfolding normalize_provider text_eq is_inherited_name
get_provider_status provider =
    let key = normalize_provider provider in
    if text_eq key azure.key
    then some azure
    else if text_eq key aws.key
    then some aws
    else if text_eq key gcp.key
    then some gcp
    else if is_inherited_name key
    then some (bare_status key)
    else none

unfoldable pub assert_provider_runtime_enabled : Text → Outcome ProviderStatus
unfolding get_provider_status normalize_provider
assert_provider_runtime_enabled provider =
    elim (get_provider_status (normalize_provider provider)) [
      | none ↦ raised (plain_error none (text "Unsupported cloud provider: " ++ provider))
      | some status ↦
          if status.runtime_enabled && status.scanner_implemented
          then ok status
          else raised (
              plain_error none (
                text "Cloud provider "
                ++ (normalize_provider provider
                    ++ (text " is not runtime-enabled in Bevoac V6.2.0: "
                        ++ get_or status.reason (text "scanner not implemented")))))
    ]
