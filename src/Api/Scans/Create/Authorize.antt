-- ===== src/Api/Scans/Create/Authorize.antt =====
-- `authorizeCustomerTargets` of services/scan-service.js.
use bevoac_dev.Prelude.{◌&&◌, Option, none, some, List, [], ◌∷◌, any, if◌then◌else◌}
use bevoac_dev.Prelude.Text.{Text, text, mem_text, truthy, or_text, or_null}
use bevoac_dev.Api.Errors.{internal_error, ApiResult, returned, failed, and_then}
use bevoac_dev.Api.Targets.{
  resolve_authorized_azure_tenant, resolve_authorized_azure_subscriptions,
  ensure_authorized_web_target,
}
use bevoac_dev.Api.Contract.{
  Descriptor, Azure, module_by_name, has_scope, is_subscription, is_azure,
}
use bevoac_dev.Api.Scans.{ApiDb, Tools, ScanRequest}

-- the module without an entry of the catalogue that the first `throw` names
unfoldable pub unknown_module : List Descriptor → List Text → Option Text
unfolding module_by_name
unknown_module catalog [] = none
unknown_module catalog (name ∷ rest) = elim (module_by_name name catalog) [
  | none ↦ some name
  | some d ↦ unknown_module catalog rest
]

module _ (tools : Tools) (db : ApiDb) where
  -- `modules.includes('web') && azure.targetUrl`
  unfoldable pub authorize_target : ScanRequest → ApiResult Azure
  unfolding mem_text ensure_authorized_web_target and_then
  authorize_target q =
      if mem_text (text "web") q.modules && truthy q.azure.target_url
      then and_then
          (ensure_authorized_web_target tools.urls db.web_targets q.tenant_id
            (or_text q.azure.target_url []))
          (λ t. returned (record q.azure { target_url = some t.url }))
      else returned q.azure

  unfoldable pub authorize_scopes : ScanRequest → Azure → ApiResult Azure
  unfolding has_scope resolve_authorized_azure_tenant resolve_authorized_azure_subscriptions
      and_then
  authorize_scopes q azure =
      if any (has_scope tools.catalog is_subscription) q.modules
      then and_then
          (resolve_authorized_azure_subscriptions db.scopes q.tenant_id
            (or_null azure.microsoft_tenant_id) azure.subscriptions)
          (λ r. returned (record azure {
            microsoft_tenant_id = some r.microsoft_tenant_id;
            subscriptions = r.subscriptions;
          }))
      else if any (has_scope tools.catalog is_azure) q.modules
      then and_then
          (resolve_authorized_azure_tenant db.scopes q.tenant_id
            (or_null azure.microsoft_tenant_id))
          (λ t. returned (record azure { microsoft_tenant_id = some t; subscriptions = [] }))
      else returned azure

  unfoldable pub authorize_customer_targets : ScanRequest → ApiResult Azure
  unfolding authorize_target authorize_scopes unknown_module and_then
  authorize_customer_targets q = and_then (authorize_target q) (λ azure.
      elim (unknown_module tools.catalog q.modules) [
        | some name ↦ failed (internal_error name)
        | none ↦ authorize_scopes q azure
      ])
