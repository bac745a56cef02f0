-- ===== src/Api/Targets.antt =====
-- lib/target-authorization.js of the API: which Azure tenants, subscriptions and web hosts a customer
-- may scan. PostgreSQL prints a UUID in lower case, and its order of UUIDs is that of their texts.
pub mod Scopes
use Prim.Native.Nat.{Ordering}
use bevoac_dev.Prelude.{
  ℕ, ◌+◌, Bool, true, false, not, ◌&&◌, ◌||◌, Option, none, some, List, [], ◌∷◌, map, ltb, ◌==◌,
  is_some, if◌then◌else◌, length,
}
use bevoac_dev.Prelude.Text.{Text, text, text_eq, mem_text, to_lower, truthy}
use bevoac_dev.Prelude.TextOrder.{text_cmp}
use bevoac_dev.Api.Errors.{
  ApiError, validation_error, forbidden, ApiResult, returned, failed, and_then,
}
use bevoac_dev.Api.Hosts.{normalize_uuid, UrlTools, WebTarget, normalize_https_target_url}

pub data ScopeStatus : Type 0 where
  consented verified needs_rbac stale disabled : ScopeStatus

abbrev pub is_verified : ScopeStatus → Bool
is_verified verified = true
is_verified _ = false

-- status IN ('CONSENTED','VERIFIED')
abbrev pub is_consented : ScopeStatus → Bool
is_consented consented = true
is_consented verified = true
is_consented _ = false

-- a row of tenant_azure_scopes
pub record ScopeRow : Type 0 where
  pub tenant_id : ℕ
  pub microsoft_tenant_id : Text
  pub subscription_id : Option Text
  pub is_active : Bool
  pub status : ScopeStatus

-- a row of tenant_web_targets
pub record WebTargetRow : Type 0 where
  pub tenant_id : ℕ
  pub host : Text
  pub is_active : Bool

-- WHERE test
unfoldable pub where_scopes : (ScopeRow → Bool) → List ScopeRow → List ScopeRow
where_scopes test [] = []
where_scopes test (r ∷ rows) =
    let later = where_scopes test rows in if test r then r ∷ later else later

-- `AND column = $n`, which is left out for a parameter that is null
abbrev pub matches : Option Text → Text → Bool
matches none column = true
matches (some t) column = text_eq column t

-- `microsoftTenantId ? normalizeUuid(microsoftTenantId, field) : null`
unfoldable pub normalize_optional_uuid : Option Text → Text → ApiResult (Option Text)
unfolding normalize_uuid and_then
normalize_optional_uuid none field = returned none
normalize_optional_uuid (some []) field = returned none
normalize_optional_uuid (some (c ∷ s)) field =
    and_then (normalize_uuid (c ∷ s) field) (λ t. returned (some t))

-- `items.map((item) => normalizeUuid(item, field))`
unfoldable pub normalize_uuids : List Text → Text → ApiResult (List Text)
unfolding normalize_uuid and_then
normalize_uuids [] field = returned []
normalize_uuids (s ∷ rest) field =
    and_then (normalize_uuid s field)
      (λ t. and_then (normalize_uuids rest field) (λ ts. returned (t ∷ ts)))

-- `[...new Set(items)]`: without the repetitions, in the order of the first occurrences
unfoldable pub unique_from : List Text → List Text → List Text
unfolding mem_text
unique_from seen [] = []
unique_from seen (x ∷ xs) =
    let later = unique_from (x ∷ seen) xs in
    let same = unique_from seen xs in if mem_text x seen then same else x ∷ later

unfoldable pub unique : List Text → List Text
unfolding unique_from
unique = unique_from []

-- WHERE tenant_id = $1 [AND microsoft_tenant_id = $2] AND subscription_id IS NULL AND is_active AND
-- status IN ('CONSENTED','VERIFIED')
unfoldable pub is_tenant_scope : ℕ → Option Text → ScopeRow → Bool
is_tenant_scope tenant_id microsoft_tenant_id r =
    (r.tenant_id == tenant_id && matches microsoft_tenant_id r.microsoft_tenant_id)
    && ((not (is_some r.subscription_id) && r.is_active) && is_consented r.status)

-- SELECT DISTINCT … ORDER BY: the order shows in no result, since more than one row is refused
unfoldable pub resolve_authorized_azure_tenant :
    List ScopeRow → (tenant_id : ℕ) → (microsoft_tenant_id : Option Text) → ApiResult Text
unfolding normalize_optional_uuid where_scopes is_tenant_scope unique to_lower and_then
resolve_authorized_azure_tenant scopes tenant_id microsoft_tenant_id =
    and_then (normalize_optional_uuid microsoft_tenant_id (text "azure.microsoftTenantId"))
      (λ normalized_tenant.
        let rows = where_scopes (is_tenant_scope tenant_id normalized_tenant) scopes in
        elim (unique (map (λ r. r.microsoft_tenant_id) rows)) [
          | [] ↦ failed (forbidden [])
          | t ∷ [] ↦ returned (to_lower t)
          | t ∷ (u ∷ more) ↦ failed (validation_error (text "azure.microsoftTenantId"))
        ])

-- subscription_id = ANY($n), which is left out for an empty list
abbrev pub is_among : List Text → Text → Bool
is_among [] column = true
is_among (t ∷ ts) column = mem_text column (t ∷ ts)

-- WHERE tenant_id = $1 [AND microsoft_tenant_id = $2] [AND subscription_id = ANY($3)] AND
-- subscription_id IS NOT NULL AND is_active AND status = 'VERIFIED'
unfoldable pub is_subscription_scope : ℕ → Option Text → List Text → ScopeRow → Bool
is_subscription_scope tenant_id microsoft_tenant_id subscriptions r =
    (r.tenant_id == tenant_id && matches microsoft_tenant_id r.microsoft_tenant_id)
    && ((elim r.subscription_id [ none ↦ false | some s ↦ is_among subscriptions s ] && r.is_active)
        && is_verified r.status)

-- an answer row of `resolveAuthorizedAzureSubscriptions`, without the display name
abbrev pub Pair : Type 0
Pair = Text × Text

unfoldable pub pairs_of : List ScopeRow → List Pair
pairs_of [] = []
pairs_of (r ∷ rows) = elim r.subscription_id [
  | none ↦ pairs_of rows
  | some s ↦ (r.microsoft_tenant_id, s) ∷ pairs_of rows
]

-- ORDER BY microsoft_tenant_id, subscription_id
unfoldable pub pair_before : Pair → Pair → Bool
unfolding text_cmp
pair_before (t, s) (u, v) = elim (text_cmp t u) [
  | Ordering.lt ↦ true
  | Ordering.gt ↦ false
  | Ordering.eq ↦ elim (text_cmp s v) [ Ordering.gt ↦ false | _ ↦ true ]
]

unfoldable pub insert_pair : Pair → List Pair → List Pair
unfolding pair_before
insert_pair p [] = p ∷ []
insert_pair p (q ∷ rest) =
    let later = insert_pair p rest in if pair_before p q then p ∷ (q ∷ rest) else q ∷ later

unfoldable pub order_pairs : List Pair → List Pair
unfolding insert_pair
order_pairs [] = []
order_pairs (p ∷ rest) = insert_pair p (order_pairs rest)

-- `requested.filter((s) => !returned.has(s))`
unfoldable pub missing_from : List Text → List Text → List Text
unfolding mem_text
missing_from found [] = []
missing_from found (s ∷ rest) =
    let later = missing_from found rest in if mem_text s found then later else s ∷ later

pub record Resolved : Type 0 where
  pub microsoft_tenant_id : Text
  pub subscriptions : List Text

unfoldable pub lower_pair : Pair → Pair
unfolding to_lower
lower_pair (t, s) = (to_lower t, to_lower s)

-- the answer, for the Microsoft tenants without repetitions
unfoldable pub resolve_one : (tenants subscriptions : List Text) → ApiResult Resolved
resolve_one (t ∷ []) subscriptions =
    returned (record { microsoft_tenant_id = t; subscriptions = subscriptions })
resolve_one _ subscriptions = failed (validation_error (text "azure.microsoftTenantId"))

-- The part after the query: the rows in order, and the subscriptions that were asked for.
unfoldable pub resolve_rows : List Text → List Pair → ApiResult Resolved
unfolding lower_pair missing_from unique resolve_one
resolve_rows requested [] = failed (forbidden [])
resolve_rows requested (p ∷ rest) =
    let rows = map lower_pair (p ∷ rest) in
    let subscriptions = map (λ q. q.1) rows in
    elim (missing_from subscriptions requested) [
      | s ∷ more ↦ failed (forbidden (s ∷ more))
      | [] ↦ resolve_one (unique (map (λ q. q.0) rows)) subscriptions
    ]

unfoldable pub resolve_authorized_azure_subscriptions :
    List ScopeRow
    → (tenant_id : ℕ) → (microsoft_tenant_id : Option Text) → (subscription_ids : List Text)
    → ApiResult Resolved
unfolding normalize_optional_uuid normalize_uuids unique where_scopes is_subscription_scope pairs_of
    order_pairs resolve_rows and_then
resolve_authorized_azure_subscriptions scopes tenant_id microsoft_tenant_id subscription_ids =
    and_then (normalize_optional_uuid microsoft_tenant_id (text "azure.microsoftTenantId"))
      (λ normalized_tenant.
        and_then (normalize_uuids subscription_ids (text "azure.subscriptionIds[]")) (λ requested.
          if length (unique requested) == length requested
          then resolve_rows requested (
              order_pairs (
                pairs_of (
                  where_scopes (is_subscription_scope tenant_id normalized_tenant requested)
                    scopes)))
          else failed (validation_error (text "azure.subscriptionIds"))))

-- whether a host is registered: SELECT id … WHERE tenant_id = $1 AND host = $2 AND is_active LIMIT 1
unfoldable pub has_web_target : (tenant_id : ℕ) → (host : Text) → List WebTargetRow → Bool
unfolding text_eq
has_web_target tenant_id host [] = false
has_web_target tenant_id host (r ∷ rows) =
    (r.tenant_id == tenant_id && (text_eq r.host host && r.is_active))
    || has_web_target tenant_id host rows

unfoldable pub ensure_authorized_web_target :
    UrlTools → List WebTargetRow → (tenant_id : ℕ) → Text → ApiResult WebTarget
unfolding normalize_https_target_url has_web_target and_then
ensure_authorized_web_target tools targets tenant_id target_url =
    and_then (normalize_https_target_url tools target_url) (λ normalized.
      if has_web_target tenant_id normalized.host targets
      then returned normalized
      else failed (forbidden (normalized.host ∷ [])))
