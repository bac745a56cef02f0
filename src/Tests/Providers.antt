-- ===== src/Tests/Providers.antt =====
-- The name of the one cloud that runs.
use bevoac_dev.Prelude.{◌≡◌, refl}
use bevoac_dev.Prelude.Text.{text, trim, to_lower, lower_unit}
use bevoac_dev.Worker.Providers.{assert_provider_runtime_enabled}
use bevoac_dev.Api.Providers.{assert_runtime_provider}
use bevoac_dev.Api.Providers.Agreement.{is_accepted, runs, providers_agree}

azure_is_normal : to_lower (trim (text "azure")) ≡ text "azure"
unfolding to_lower trim lower_unit
azure_is_normal = refl

providers_agree_example :
    runs (assert_provider_runtime_enabled (text "azure"))
    ≡ is_accepted (assert_runtime_provider (text "azure"))
providers_agree_example = providers_agree (text "azure") azure_is_normal
