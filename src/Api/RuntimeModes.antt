-- ===== src/Api/RuntimeModes.antt =====
-- lib/runtime-mode.js of the API: which parts of the service a process runs.
use bevoac_dev.Prelude.{
  ◌≡◌, Bool, true, false, not, ◌&&◌, ◌||◌, Option, none, some, List, [], ◌∷◌, if◌then◌else◌, arith,
}
use bevoac_dev.Prelude.Text.{Text, text, text_eq, mem_text, or_text, trim, to_lower}

abbrev pub runtime_modes : List Text
runtime_modes =
    text "combined" ∷ text "public_api" ∷ text "admin_api" ∷ text "outbox" ∷ text "retention" ∷ []

-- the normal form of a mode that is known, or an error
unfoldable pub resolve_runtime_mode : Option Text → Option Text
unfolding mem_text trim to_lower
resolve_runtime_mode value =
    let normalized = to_lower (trim (or_text value (text "combined"))) in
    if mem_text normalized runtime_modes then some normalized else none

unfoldable pub runtime_supports_public_api : Text → Bool
unfolding text_eq
runtime_supports_public_api mode =
    text_eq mode (text "combined") || text_eq mode (text "public_api")

unfoldable pub runtime_supports_admin_api : Text → Bool
unfolding text_eq
runtime_supports_admin_api mode = text_eq mode (text "combined") || text_eq mode (text "admin_api")

-- `publisherEnabled` and `immediatePublishAfterRequest` of the outbox; absent is not `false`
unfoldable pub runtime_requires_service_bus : Text → (publisher immediate : Option Bool) → Bool
unfolding text_eq runtime_supports_public_api
runtime_requires_service_bus mode publisher immediate =
    if text_eq mode (text "outbox")
    then true
    else if not (runtime_supports_public_api mode)
    then false
    else elim publisher [ none ↦ true | some p ↦ p ] || elim immediate [ none ↦ true | some i ↦ i ]

unfoldable pub is_http_runtime : Text → Bool
unfolding text_eq
is_http_runtime mode =
    text_eq mode (text "combined")
    || text_eq mode (text "public_api")
    || text_eq mode (text "admin_api")

-- A mode serves HTTP exactly if it serves the public or the admin API; and one that needs the Service
-- Bus is the outbox, or serves the public API.
pub runtime_modes-agree :
    (mode : Text) (publisher immediate : Option Bool)
    → (is_http_runtime mode ≡ (runtime_supports_public_api mode || runtime_supports_admin_api mode))
      × ((runtime_requires_service_bus mode publisher immediate
            && not (text_eq mode (text "outbox") || runtime_supports_public_api mode))
          ≡ false)
unfolding is_http_runtime runtime_supports_public_api runtime_supports_admin_api
    runtime_requires_service_bus
runtime_modes-agree mode publisher immediate = (ground arith, ground arith)
