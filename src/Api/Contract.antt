-- ===== src/Api/Contract.antt =====
-- lib/module-catalog.js and lib/scan-contract.js of the API: the modules of the catalogue
-- contracts/module-catalog.json, and the form of a request for a scan. A profile that is a property of
-- every JavaScript object (`constructor`) does not arise.
pub mod Modules
use bevoac_dev.Prelude.{
  ℕ, Bool, true, false, ◌&&◌, ◌||◌, Option, none, some, List, [], ◌∷◌, ◌++◌, map, any, max, ◌==◌,
  if◌then◌else◌, length,
}
use bevoac_dev.Prelude.Text.{Text, text, text_eq, mem_text, to_lower, trim, truthy, or_text}
use bevoac_dev.Prelude.TextOrder.{sorted_set}
use bevoac_dev.Api.Errors.{ApiError, validation_error, ApiResult, returned, failed, and_then}
use bevoac_dev.Api.Hosts.{normalize_uuid, UrlTools, normalize_https_target_url}
use bevoac_dev.Api.Targets.{normalize_uuids, normalize_optional_uuid, unique}

pub data Scope : Type 0 where
  web_scope tenant_scope subscription_scope : Scope

pub record Descriptor : Type 0 where
  pub name : Text
  pub profiles : List Text
  pub scope : Scope

abbrev entra_profiles : List Text
entra_profiles = text "entra" ∷ (text "full" ∷ [])

abbrev infra_profiles : List Text
infra_profiles = text "infra" ∷ (text "full" ∷ [])

abbrev infra_module : Text → Descriptor
infra_module name = record { name = name; profiles = infra_profiles; scope = subscription_scope }

-- the entries of contracts/module-catalog.json, in order
unfoldable pub module_descriptors : List Descriptor
module_descriptors =
    (record { name = text "web"; profiles = text "web" ∷ (text "full" ∷ []); scope = web_scope })
    ∷ (record { name = text "entra"; profiles = entra_profiles; scope = tenant_scope })
    ∷ (record {
      name = text "identity_admin_posture";
      profiles = entra_profiles;
      scope = tenant_scope;
    })
    ∷ infra_module (text "storage")
    ∷ infra_module (text "vms")
    ∷ infra_module (text "nsg")
    ∷ infra_module (text "keyvault")
    ∷ infra_module (text "logs")
    ∷ infra_module (text "db")
    ∷ infra_module (text "governance")
    ∷ infra_module (text "appservices")
    ∷ infra_module (text "finops")
    ∷ (record { name = text "entra_b2b"; profiles = infra_profiles; scope = tenant_scope })
    ∷ infra_module (text "tags")
    ∷ infra_module (text "exposure_map")
    ∷ infra_module (text "diagnostic_coverage")
    ∷ infra_module (text "encryption_coverage")
    ∷ infra_module (text "azure_rbac_exposure")
    ∷ infra_module (text "private_link_coverage")
    ∷ infra_module (text "policy_compliance")
    ∷ []

-- `MODULE_BY_NAME.get(name)`
unfoldable pub module_by_name : Text → List Descriptor → Option Descriptor
unfolding text_eq
module_by_name name [] = none
module_by_name name (d ∷ ds) =
    let later = module_by_name name ds in if text_eq d.name name then some d else later

-- `MODULE_DESCRIPTORS.filter((entry) => entry.profiles.includes(profile)).map((entry) => entry.name)`
unfoldable pub names_of_profile : Text → List Descriptor → List Text
unfolding mem_text
names_of_profile profile [] = []
names_of_profile profile (d ∷ ds) =
    let later = names_of_profile profile ds in
    if mem_text profile d.profiles then d.name ∷ later else later

abbrev pub profiles : List Text
profiles = text "web" ∷ (text "entra" ∷ (text "infra" ∷ (text "full" ∷ [])))

-- `PROFILE_MODULES[profile] || []`, also `modulesForProfile`
unfoldable pub modules_for_profile : List Descriptor → Text → List Text
unfolding names_of_profile mem_text
modules_for_profile catalog profile =
    if mem_text profile profiles then names_of_profile profile catalog else []

-- `String(item || '').trim().toLowerCase()`
unfoldable pub module_name : Text → Text
unfolding to_lower trim
module_name item = to_lower (trim item)

module _ (catalog : List Descriptor) where
  -- the loop of `normalizeModules`, with the modules so far
  unfoldable pub normalize_from : List Text → List Text → List Text → ApiResult (List Text)
  unfolding module_by_name mem_text module_name
  normalize_from allowed normalized [] = returned normalized
  normalize_from allowed normalized (item ∷ rest) =
      let name = module_name item in
      let same = normalize_from allowed normalized rest in
      let added = normalize_from allowed (normalized ++ (name ∷ [])) rest in
      elim (module_by_name name catalog) [
        | none ↦ failed (validation_error item)
        | some d ↦
            if mem_text name allowed
            then (if mem_text name normalized then same else added)
            else failed (validation_error name)
      ]

  -- `normalizeModules`; a value that is no array is none. The loop leaves no empty list.
  unfoldable pub normalize_modules : Text → Option (List Text) → ApiResult (List Text)
  unfolding modules_for_profile normalize_from
  normalize_modules profile none = returned (modules_for_profile catalog profile)
  normalize_modules profile (some []) = returned (modules_for_profile catalog profile)
  normalize_modules profile (some (item ∷ rest)) =
      normalize_from (modules_for_profile catalog profile) [] (item ∷ rest)

-- `azure` of the body: the properties that may be absent or null
pub record AzureInput : Type 0 where
  pub target_url : Option Text
  pub microsoft_tenant_id : Option Text
  pub subscription_ids : Option (List Text)
  pub subscriptions : Option (List Text)

pub data AzureArgument : Type 0 where
  absent no_object : AzureArgument
  object : AzureInput → AzureArgument

abbrev pub empty_input : AzureInput
empty_input = record {
  target_url = none;
  microsoft_tenant_id = none;
  subscription_ids = none;
  subscriptions = none;
}

-- `azure` of the service: a list of subscriptions, empty where there is none
pub record Azure : Type 0 where
  pub target_url : Option Text
  pub microsoft_tenant_id : Option Text
  pub subscriptions : List Text

abbrev pub raw_subscriptions : AzureInput → List Text
raw_subscriptions a = elim a.subscription_ids [
  | some ids ↦ ids
  | none ↦ elim a.subscriptions [ some ids ↦ ids | none ↦ [] ]
]

-- Without repetitions, `sort` is the sorted set.
unfoldable pub normalize_optional_subscription_list : AzureInput → ApiResult (List Text)
unfolding normalize_uuids unique sorted_set and_then
normalize_optional_subscription_list azure =
    and_then (normalize_uuids (raw_subscriptions azure) (text "azure.subscriptionIds[]"))
      (λ normalized.
        if length (unique normalized) == length normalized
        then returned (sorted_set normalized)
        else failed (validation_error (text "azure.subscriptionIds")))

unfoldable pub has_scope : List Descriptor → (Scope → Bool) → Text → Bool
unfolding module_by_name
has_scope catalog test name = elim (module_by_name name catalog) [
  | none ↦ false
  | some d ↦ test d.scope
]

abbrev pub is_web : Scope → Bool
is_web web_scope = true
is_web _ = false

abbrev pub is_subscription : Scope → Bool
is_subscription subscription_scope = true
is_subscription _ = false

-- `['tenant', 'subscription'].includes(scope)`
abbrev pub is_azure : Scope → Bool
is_azure web_scope = false
is_azure _ = true

unfoldable pub azure_target : UrlTools → Bool → AzureInput → ApiResult (Option Text)
unfolding normalize_https_target_url and_then
azure_target tools false input = returned none
azure_target tools true input =
    if truthy input.target_url
    then and_then (normalize_https_target_url tools (or_text input.target_url []))
        (λ t. returned (some t.url))
    else failed (validation_error (text "azure.targetUrl"))

unfoldable pub validate_azure_payload :
    List Descriptor → UrlTools → AzureArgument → (modules : List Text) → ApiResult Azure
unfolding has_scope azure_target normalize_optional_uuid normalize_optional_subscription_list
    and_then
validate_azure_payload catalog tools no_object modules = failed (validation_error (text "azure"))
validate_azure_payload catalog tools absent modules =
    and_then (azure_target tools (any (has_scope catalog is_web) modules) empty_input) (λ url.
      returned (record { target_url = url; microsoft_tenant_id = none; subscriptions = [] }))
validate_azure_payload catalog tools (object input) modules =
    and_then (azure_target tools (any (has_scope catalog is_web) modules) input) (λ url.
      and_then (normalize_optional_uuid input.microsoft_tenant_id (text "azure.microsoftTenantId"))
        (λ tenant.
          and_then
            (if any (has_scope catalog is_subscription) modules
              then normalize_optional_subscription_list input
              else returned [])
            (λ subscriptions. returned (record {
              target_url = url;
              microsoft_tenant_id = tenant;
              subscriptions = subscriptions;
            }))))

-- `resolveBillingUnits`, and `resolveBillingUnitsForAuthorizedScan` of services/scan-service.js
unfoldable pub resolve_billing_units : Text → Azure → ℕ
unfolding text_eq
resolve_billing_units profile azure =
    if text_eq profile (text "infra") || text_eq profile (text "full")
    then max 1 (length azure.subscriptions)
    else 1
