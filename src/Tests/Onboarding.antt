-- ===== src/Tests/Onboarding.antt =====
-- The state of one onboarding session, with a cipher that adds a fixed tag.
use bevoac_dev.Prelude.{ℕ, ◌≤◌, ◌≡◌, refl, true, ◌&&◌, some, [], arith}
use bevoac_dev.Prelude.Text.{Text, text, text_eq, trim, trim_start, truthy, starts_with}
use bevoac_dev.Api.Errors.{and_then}
use bevoac_dev.Api.Hosts.{split_dots}
use bevoac_dev.Api.OnboardingState.{
  Bytes, Payload, at_time, Crypto, validate_payload, derive_encryption_key, assert_secret,
  create_signed_state, verify_signed_state, verify_encrypted_state, decrypt_parts, read_payload,
}
use bevoac_dev.Api.OnboardingState.RoundTrip.{verify_signed_state-create}
use bevoac_dev.Api.OnboardingState.Accepted.{verify_signed_state-IsCurrent}

abbrev session : Payload
session = record {
  sid = some (text "s1");
  tid = some (text "t1");
  exp = at_time 900;
  nonce = some (text "n1");
  others = [];
}

abbrev iv : Bytes
iv = text "abcdefghijkl"

abbrev tag : Bytes
tag = text "ABCDEFGHIJKLMNOP"

abbrev crypto : Crypto
crypto = record {
  sha256 = λ t. t;
  hmac_base64url = λ s t. text "mac";
  encrypt = λ k i m. (m, tag);
  decrypt = λ k i t c. some c;
  to_base64url = λ b. b;
  from_base64url = λ t. t;
  stringify = λ p. text "session";
  parse = λ b. some (some session);
}

abbrev secret : Text
secret = text "0123456789abcdef0123456789abcdef"

abbrev state : Text
state = text "v2.abcdefghijkl.session.ABCDEFGHIJKLMNOP"

verify_signed_state-create_example :
    verify_signed_state crypto 800 secret state ≡ validate_payload 800 (some session)
unfolding derive_encryption_key assert_secret trim trim_start and_then create_signed_state
verify_signed_state-create_example =
    verify_signed_state-create crypto 800 secret session secret iv (text "session") tag state refl
      refl refl refl (refl, (refl, refl)) (refl, (refl, refl)) (refl, (refl, refl)) refl refl
      (omega arith) refl (omega arith)

verify_signed_state-IsCurrent_example :
    ((t : ℕ) × ((session.exp ≡ at_time t) × (800 ≤ t)))
    × (((truthy session.sid && truthy session.tid) && truthy session.nonce) ≡ true)
unfolding verify_signed_state verify_encrypted_state decrypt_parts read_payload validate_payload
    derive_encryption_key assert_secret trim trim_start and_then split_dots text_eq starts_with
verify_signed_state-IsCurrent_example =
    verify_signed_state-IsCurrent crypto 800 secret session state refl
