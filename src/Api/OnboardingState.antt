-- ===== src/Api/OnboardingState.antt =====
-- lib/onboarding-state.js of the API: the state that a customer's browser carries through the consent
-- of Azure, encrypted (v2) or signed (older sessions). Bytes are numbers; times are milliseconds.
pub mod RoundTrip
pub mod Accepted
use bevoac_dev.Prelude.{
  ℕ, zero, suc, ◌≤◌, Bool, true, false, not, ◌&&◌, ◌||◌, Option, none, some, List, [], ◌∷◌, ◌++◌,
  ltb, ◌==◌, if◌then◌else◌, length,
}
use bevoac_dev.Prelude.Text.{Text, text, text_eq, trim, starts_with, truthy}
use bevoac_dev.Api.Errors.{ApiError, validation_error, ApiResult, returned, failed, and_then}
use bevoac_dev.Api.Hosts.{split_dots}

abbrev pub Bytes : Type 0
Bytes = List ℕ

-- `payload.exp`: missing (or null, 0, an empty text), a number, or what `Number` makes no finite number
-- of
pub data Expiry : Type 0 where
  no_expiry unreadable : Expiry
  at_time : ℕ → Expiry

-- the four properties that the code reads, and the text of the others
pub record Payload : Type 0 where
  pub sid : Option Text
  pub tid : Option Text
  pub exp : Expiry
  pub nonce : Option Text
  pub others : Text

-- What the module uses of Node. `parse` is `JSON.parse` of UTF-8: none where it throws, and some none
-- for a value that is no object. `decrypt` is none where `final` throws.
pub record Crypto : Type 0 where
  pub sha256 : Text → Bytes
  pub hmac_base64url : (secret payload : Text) → Text
  pub encrypt : (key iv plaintext : Bytes) → Bytes × Bytes
  pub decrypt : (key iv tag ciphertext : Bytes) → Option Bytes
  pub to_base64url : Bytes → Text
  pub from_base64url : Text → Bytes
  pub stringify : Payload → Bytes
  pub parse : Bytes → Option (Option Payload)

abbrev pub invalid {ℓ} : {A : Type ℓ} → ApiResult A
invalid = failed (validation_error (text "Invalid onboarding state."))

abbrev pub is_set : Expiry → Bool
is_set no_expiry = false
is_set _ = true

unfoldable pub validate_payload : (now : ℕ) → Option Payload → ApiResult Payload
validate_payload now none = failed (validation_error (text "Invalid onboarding state payload."))
validate_payload now (some p) =
    if (truthy p.sid && truthy p.tid) && (is_set p.exp && truthy p.nonce)
    then elim p.exp [
      | at_time t ↦
          if ltb t now
          then failed (validation_error (text "Expired onboarding state."))
          else returned p
      | _ ↦ failed (validation_error (text "Invalid onboarding state expiration."))
    ]
    else failed (validation_error (text "Incomplete onboarding state payload."))

-- `JSON.parse` and `validatePayload` in the `try` block: a parse error becomes the given error
unfoldable pub read_payload : Crypto → (now : ℕ) → ApiResult Payload → Bytes → ApiResult Payload
unfolding validate_payload
read_payload crypto now otherwise plaintext = elim (crypto.parse plaintext) [
  | none ↦ otherwise
  | some value ↦ validate_payload now value
]

unfoldable pub assert_secret : Text → ApiResult (Unit {0})
unfolding trim
assert_secret secret =
    if ltb (length (trim secret)) 32
    then failed (validation_error (text "ONBOARDING_STATE_SECRET"))
    else returned tt

unfoldable pub derive_encryption_key : Crypto → Text → ApiResult Bytes
unfolding assert_secret and_then
derive_encryption_key crypto secret =
    and_then (assert_secret secret) (λ u. returned (crypto.sha256 secret))

abbrev pub state_version : Text
state_version = text "v2"

unfoldable pub create_signed_state :
    Crypto → (iv : Bytes) → (secret : Text) → Payload → ApiResult Text
unfolding derive_encryption_key and_then
create_signed_state crypto iv secret payload =
    and_then (derive_encryption_key crypto secret) (λ key.
      let (ciphertext, tag) = crypto.encrypt key iv (crypto.stringify payload) in
      returned (
        state_version
        ++ (b'.'
            ∷ (crypto.to_base64url iv
                ++ (b'.' ∷ (crypto.to_base64url ciphertext ++ (b'.' ∷ crypto.to_base64url tag)))))))

-- a part of the split text; a part that is missing is as falsy as an empty one
abbrev pub part : ℕ → List Text → Text
part n [] = []
part zero (t ∷ ts) = t
part (suc n) (t ∷ ts) = part n ts

-- the `try` block of `verifyEncryptedState`
unfoldable pub decrypt_parts :
    Crypto → (now : ℕ) → Text → (iv_part ciphertext_part tag_part : Text) → ApiResult Payload
unfolding derive_encryption_key read_payload and_then
decrypt_parts crypto now secret iv_part ciphertext_part tag_part =
    and_then (derive_encryption_key crypto secret) (λ key.
      let iv = crypto.from_base64url iv_part in
      let ciphertext = crypto.from_base64url ciphertext_part in
      let tag = crypto.from_base64url tag_part in
      if (not (length iv == 12) || not (length tag == 16)) || length ciphertext == 0
      then invalid
      else elim (crypto.decrypt key iv tag ciphertext) [
        | none ↦ invalid
        | some plaintext ↦ read_payload crypto now invalid plaintext
      ])

unfoldable pub verify_encrypted_state : Crypto → (now : ℕ) → (secret raw : Text) → ApiResult Payload
unfolding split_dots text_eq decrypt_parts
verify_encrypted_state crypto now secret raw =
    let parts = split_dots [] raw in
    if (text_eq (part 0 parts) state_version && truthy (some (part 1 parts)))
      && ((truthy (some (part 2 parts)) && truthy (some (part 3 parts)))
          && not (truthy (some (part 4 parts))))
    then decrypt_parts crypto now secret (part 1 parts) (part 2 parts) (part 3 parts)
    else invalid

-- after the secret: the two parts. The expected signature is ASCII: the buffers have one length and are
-- equal exactly if the texts are.
unfoldable pub verify_parts : Crypto → (now : ℕ) → (secret : Text) → List Text → ApiResult Payload
unfolding text_eq read_payload
verify_parts crypto now secret (payload ∷ (signature ∷ [])) =
    if text_eq signature (crypto.hmac_base64url secret payload)
    then read_payload crypto now
        (failed (validation_error (text "Invalid onboarding state payload.")))
        (crypto.from_base64url payload)
    else failed (validation_error (text "Invalid onboarding state signature."))
verify_parts crypto now secret _ = invalid

unfoldable pub verify_legacy_signed_state :
    Crypto → (now : ℕ) → (secret raw : Text) → ApiResult Payload
unfolding assert_secret split_dots verify_parts and_then
verify_legacy_signed_state crypto now secret raw =
    and_then (assert_secret secret) (λ u. verify_parts crypto now secret (split_dots [] raw))

unfoldable pub verify_signed_state : Crypto → (now : ℕ) → (secret state : Text) → ApiResult Payload
unfolding trim starts_with verify_encrypted_state verify_legacy_signed_state
verify_signed_state crypto now secret state =
    let raw = trim state in
    if not (truthy (some raw)) || ltb 4096 (length raw)
    then invalid
    else if starts_with raw (state_version ++ (b'.' ∷ []))
    then verify_encrypted_state crypto now secret raw
    else verify_legacy_signed_state crypto now secret raw
