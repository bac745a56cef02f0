-- ===== src/Api/Providers.antt =====
-- lib/cloud-provider-contract.js of the API: which clouds a scan may name.
pub mod Agreement
use bevoac_dev.Prelude.{
  Bool, true, false, ◌||◌, Option, none, some, List, [], ◌∷◌, ◌++◌, if◌then◌else◌,
}
use bevoac_dev.Prelude.Text.{Text, text, text_eq, trim, to_lower}

pub record Provider : Type 0 where
  pub key : Text
  pub runtime_enabled : Bool
  pub status : Text
  pub credential_model : Text
  pub target_contract : Text
  pub scan_profiles : List Text
  pub modules : List Text

abbrev pub azure_modules : List Text
azure_modules =
    text "web"
    ∷ text "entra"
    ∷ text "identity_admin_posture"
    ∷ text "storage"
    ∷ text "vms"
    ∷ text "nsg"
    ∷ text "keyvault"
    ∷ text "logs"
    ∷ text "db"
    ∷ text "governance"
    ∷ text "appservices"
    ∷ text "finops"
    ∷ text "entra_b2b"
    ∷ text "tags"
    ∷ text "exposure_map"
    ∷ text "diagnostic_coverage"
    ∷ text "encryption_coverage"
    ∷ text "azure_rbac_exposure"
    ∷ text "private_link_coverage"
    ∷ text "policy_compliance"
    ∷ []

abbrev pub aws_modules : List Text
aws_modules =
    text "aws_iam"
    ∷ text "aws_s3"
    ∷ text "aws_ec2"
    ∷ text "aws_security_groups"
    ∷ text "aws_kms"
    ∷ text "aws_cloudtrail"
    ∷ text "aws_config"
    ∷ text "aws_costs"
    ∷ text "aws_rds"
    ∷ []

abbrev pub azure_provider : Provider
azure_provider = record {
  key = text "azure";
  runtime_enabled = true;
  status = text "production_controlled";
  credential_model = text "microsoft-entra-cross-tenant";
  target_contract = text "azure";
  scan_profiles = text "web" ∷ text "entra" ∷ text "infra" ∷ text "full" ∷ [];
  modules = azure_modules;
}

abbrev pub aws_provider : Provider
aws_provider = record {
  key = text "aws";
  runtime_enabled = false;
  status = text "foundation_only_not_runtime_enabled";
  credential_model = text "sts-assume-role-external-id";
  target_contract = text "aws";
  scan_profiles = text "infra" ∷ text "full" ∷ [];
  modules = aws_modules;
}

abbrev pub gcp_provider : Provider
gcp_provider = record {
  key = text "gcp";
  runtime_enabled = false;
  status = text "roadmap_not_runtime_enabled";
  credential_model = text "workload-identity-federation";
  target_contract = text "gcp";
  scan_profiles = text "infra" ∷ text "full" ∷ [];
  modules = [];
}

-- The lower-case names that every object inherits from `Object.prototype`: `PROVIDERS[key]` finds those
-- too, as an object with none of a provider's fields.
unfoldable pub is_inherited : Text → Bool
unfolding text_eq
is_inherited key = text_eq key (text "constructor") || text_eq key (text "__proto__")

-- an inherited property that is spread: only its key
abbrev pub bare_provider : Text → Provider
bare_provider key = record {
  key = key;
  runtime_enabled = false;
  status = [];
  credential_model = [];
  target_contract = [];
  scan_profiles = [];
  modules = [];
}

unfoldable pub get_provider : Text → Option Provider
unfolding trim to_lower text_eq is_inherited
get_provider provider_name =
    let key = to_lower (trim provider_name) in
    if text_eq key azure_provider.key
    then some azure_provider
    else if text_eq key aws_provider.key
    then some aws_provider
    else if text_eq key gcp_provider.key
    then some gcp_provider
    else if is_inherited key
    then some (bare_provider key)
    else none

pub data ProviderCheck : Type 0 where
  provider_accepted : Provider → ProviderCheck
  unsupported_provider : (name : Text) → ProviderCheck
  provider_not_enabled : (key : Text) → ProviderCheck

-- `assertRuntimeProvider`: the provider, or one of the two `ValidationError`s
unfoldable pub assert_runtime_provider : Text → ProviderCheck
unfolding get_provider
assert_runtime_provider provider_name = elim (get_provider provider_name) [
  | none ↦ unsupported_provider provider_name
  | some provider ↦
      if provider.runtime_enabled
      then provider_accepted provider
      else provider_not_enabled provider.key
]
