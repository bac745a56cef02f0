-- ===== src/Tests/Targets.antt =====
-- Authorised targets, normalised modules, and the fingerprints of requests.
use bevoac_dev.Prelude.{◌≡◌, ◌≢◌, refl, true, false, none, List, [], ◌∷◌, map, any, All, arith}
use bevoac_dev.Prelude.Text.{Text, text, text_eq, text_eq_iff, mem_text, trim, to_lower, lower_unit}
use bevoac_dev.Api.Errors.{and_then}
use bevoac_dev.Api.Hosts.{WebTarget, normalize_uuid, is_uuid, uuid_from, uuid_unit}
use bevoac_dev.Api.Targets.{
  Resolved, resolve_authorized_azure_subscriptions, missing_from, normalize_optional_uuid,
  normalize_uuids, unique, unique_from, where_scopes, is_subscription_scope, pairs_of, order_pairs,
  insert_pair, resolve_rows, resolve_one, lower_pair,
}
use bevoac_dev.Api.Targets.Scopes.{allows, resolve_authorized_azure_subscriptions_sound}
use bevoac_dev.Api.Contract.{
  module_descriptors, module_by_name, module_name, modules_for_profile, names_of_profile,
  normalize_modules, normalize_from,
}
use bevoac_dev.Api.Contract.Modules.{distinct, normalize_modules-requested}
use bevoac_dev.Api.CanonicalJson.{number, object, member, no_members, canonicalize}
use bevoac_dev.Api.CanonicalJson.Order.{members_then, canonicalize-swap}
use bevoac_dev.Api.Scans.{clean_name, build_request_fingerprint}
use bevoac_dev.Api.Scans.Fingerprints.{build_request_fingerprint-unordered}
use bevoac_dev.Tests.Scans.{azure_tenant, subscription, scope_row, tools}

abbrev resolved : Resolved
resolved = record { microsoft_tenant_id = azure_tenant; subscriptions = subscription ∷ [] }

resolve_authorized_azure_subscriptions_sound_example :
    All (λ s. any (allows 7 (azure_tenant, s)) (scope_row ∷ []) ≡ true) (subscription ∷ [])
    × (missing_from (subscription ∷ []) (subscription ∷ []) ≡ [])
unfolding resolve_authorized_azure_subscriptions normalize_optional_uuid normalize_uuids
    normalize_uuid is_uuid uuid_from uuid_unit trim to_lower lower_unit and_then unique unique_from
    mem_text text_eq where_scopes is_subscription_scope pairs_of order_pairs insert_pair
    resolve_rows resolve_one lower_pair missing_from
resolve_authorized_azure_subscriptions_sound_example =
    resolve_authorized_azure_subscriptions_sound (scope_row ∷ []) 7 none (subscription ∷ [])
      (subscription ∷ []) resolved refl refl

abbrev site : WebTarget
site = record { url = text "https://example.com/"; host = text "example.com" }

abbrev asked : List Text
asked = text " VMs " ∷ (text "storage" ∷ (text "vms" ∷ []))

abbrev normal : List Text
normal = text "vms" ∷ (text "storage" ∷ [])

normalize_modules-requested_example :
    ((distinct normal ≡ true)
      × All (λ t. mem_text t (modules_for_profile module_descriptors (text "infra")) ≡ true) normal)
    × (mem_text (text "vms") normal ≡ mem_text (text "vms") (map module_name asked))
unfolding normalize_modules normalize_from modules_for_profile names_of_profile module_by_name
    module_descriptors module_name mem_text text_eq trim to_lower lower_unit
normalize_modules-requested_example =
    normalize_modules-requested module_descriptors (text "infra") (text " VMs ")
      (text "storage" ∷ (text "vms" ∷ [])) normal (text "vms") refl

apart : text "a" ≢ text "b"
unfolding text_eq
apart e = let f : false ≡ true = (text_eq_iff (text "a") (text "b")).1 e in cc

canonicalize-swap_example :
    canonicalize (
      object
        (members_then [] (member (text "a") (number 1) (member (text "b") (number 2) no_members))))
    ≡ canonicalize (
        object (
          members_then [] (member (text "b") (number 2) (member (text "a") (number 1) no_members))))
canonicalize-swap_example =
    canonicalize-swap [] (text "a") (text "b") (number 1) (number 2) no_members apart

build_request_fingerprint-unordered_example :
    build_request_fingerprint tools
      (text "azure")
      (text "infra")
      (text "vms" ∷ (text "storage" ∷ []))
      (record { target_url = none; microsoft_tenant_id = none; subscriptions = [] })
    ≡ build_request_fingerprint tools
        (text "azure")
        (text "infra")
        (text "storage" ∷ (text "VMS" ∷ []))
        (record { target_url = none; microsoft_tenant_id = none; subscriptions = [] })
unfolding mem_text clean_name trim to_lower lower_unit
build_request_fingerprint-unordered_example =
    build_request_fingerprint-unordered tools (text "azure") (text "infra")
      (text "vms" ∷ (text "storage" ∷ [])) (text "storage" ∷ (text "VMS" ∷ []))
      (record { target_url = none; microsoft_tenant_id = none; subscriptions = [] })
      (record { target_url = none; microsoft_tenant_id = none; subscriptions = [] })
      (λ t. ground arith) (λ t. refl) refl refl
