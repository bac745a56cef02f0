-- ===== src/Api/Providers/Agreement.antt =====
-- The API and the worker run the same clouds.
use bevoac_dev.Prelude.{◌≡◌, sym, ap, ◌∙◌, Bool, true, false, arith}
use bevoac_dev.Prelude.Text.{Text, text, text_eq, trim, to_lower}
use bevoac_dev.Worker.Errors.{Outcome, ok, raised}
use bevoac_dev.Worker.Providers.{
  ProviderStatus, normalize_provider, get_provider_status, assert_provider_runtime_enabled,
}
use bevoac_dev.Api.Providers.{
  get_provider, ProviderCheck, provider_accepted, assert_runtime_provider,
}

abbrev pub names_azure : Text → Bool
names_azure name = text_eq (to_lower (trim name)) (text "azure")

abbrev pub is_accepted : ProviderCheck → Bool
is_accepted (provider_accepted p) = true
is_accepted _ = false

abbrev pub runs : Outcome ProviderStatus → Bool
runs (ok s) = true
runs (raised e) = false

-- The API accepts exactly the names that are "azure" but for the case of letters and outer spaces.
pub assert_runtime_provider-azure :
    (name : Text) → is_accepted (assert_runtime_provider name) ≡ names_azure name
unfolding assert_runtime_provider get_provider
assert_runtime_provider-azure name = ground arith

worker-azure :
    (name : Text)
    → runs (assert_provider_runtime_enabled name)
      ≡ text_eq (normalize_provider (normalize_provider name)) (text "azure")
unfolding assert_provider_runtime_enabled get_provider_status
worker-azure name = ground arith

-- A name that is lower-case and trimmed is run by the worker exactly where the API accepts it.
pub providers_agree :
    (name : Text)
    → to_lower (trim name) ≡ name
    → runs (assert_provider_runtime_enabled name) ≡ is_accepted (assert_runtime_provider name)
unfolding normalize_provider
providers_agree name h =
    worker-azure name ∙ (ap names_azure h ∙ sym (assert_runtime_provider-azure name))
