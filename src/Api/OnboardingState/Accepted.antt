-- ===== src/Api/OnboardingState/Accepted.antt =====
-- What an accepted state guarantees.
use bevoac_dev.Prelude.{
  ℕ, ◌≤◌, ◌≡◌, refl, ap, subst, inl, inr, true, not, ◌&&◌, ◌||◌, Option, some, none, List, [], ◌∷◌,
  ◌++◌, ltb, ◌==◌, length, arith, Bool-cases, Option-cases,
}
use bevoac_dev.Prelude.Text.{Text, text_eq, trim, starts_with, truthy}
use bevoac_dev.Api.Errors.{ApiError, ApiResult, returned, failed, and_then, ApiResult-cases}
use bevoac_dev.Api.Hosts.{split_dots}
use bevoac_dev.Api.OnboardingState.{
  Bytes, Payload, Expiry, no_expiry, unreadable, at_time, is_set, Crypto, validate_payload,
  read_payload, assert_secret, derive_encryption_key, state_version, part, decrypt_parts,
  verify_encrypted_state, verify_parts, verify_legacy_signed_state, verify_signed_state,
}

-- a payload with a session, a tenant, a nonce, and an expiry that is not over
abbrev pub IsCurrent : ℕ → Payload → Type 0
IsCurrent now p =
    ((t : ℕ) × ((p.exp ≡ at_time t) × (now ≤ t)))
    × (((truthy p.sid && truthy p.tid) && truthy p.nonce) ≡ true)

payload_or : Payload → ApiResult Payload → Payload
payload_or p (returned x) = x
payload_or p (failed e) = p

Expiry-cases :
    (now : ℕ) (q p : Payload) (e : Expiry)
    → q.exp ≡ e
    → validate_payload now (some q) ≡ returned p
    → IsCurrent now q × (q ≡ p)
unfolding validate_payload payload_or
Expiry-cases now q p no_expiry s h = ground arith
Expiry-cases now q p unreadable s h =
    elim (Bool-cases ((truthy q.sid && truthy q.tid) && (is_set q.exp && truthy q.nonce))) [
      | inl c ↦ ground arith
      | inr n ↦ ground arith
    ]
Expiry-cases now q p (at_time t) s h =
    elim (Bool-cases ((truthy q.sid && truthy q.tid) && (is_set q.exp && truthy q.nonce))) [
      | inr n ↦ ground arith
      | inl c ↦ elim (Bool-cases (ltb t now)) [
        | inl old ↦ ground arith
        | inr fresh ↦ (
          ((t, (s, ground arith)), ground arith),
          ap (payload_or p) (rw (c, validate_payload, s, fresh) at h),
        )
      ]
    ]

validate_payload-IsCurrent :
    (now : ℕ) (value : Option Payload) (p : Payload)
    → validate_payload now value ≡ returned p
    → IsCurrent now p
unfolding validate_payload
validate_payload-IsCurrent now none p h = cc
validate_payload-IsCurrent now (some q) p h =
    let (current, same) = Expiry-cases now q p q.exp refl h in subst (IsCurrent now) same current

module _ (crypto : Crypto) (now : ℕ) (secret : Text) (p : Payload) where
  read_payload-IsCurrent :
      (e : ApiError) (plaintext : Bytes)
      → read_payload crypto now (failed e) plaintext ≡ returned p
      → IsCurrent now p
  unfolding read_payload
  read_payload-IsCurrent e plaintext h = elim (Option-cases (crypto.parse plaintext)) [
    | inl n ↦ ground arith
    | inr (value, s) ↦ validate_payload-IsCurrent now value p (rw (s, read_payload) at h)
  ]

  decrypt_parts-IsCurrent :
      (iv ciphertext tag : Text)
      → decrypt_parts crypto now secret iv ciphertext tag ≡ returned p
      → (plaintext : Bytes) × ((key : Bytes) × ((crypto.decrypt key
                (crypto.from_base64url iv)
                (crypto.from_base64url tag)
                (crypto.from_base64url ciphertext)
              ≡ some plaintext)
            × IsCurrent now p))
  unfolding decrypt_parts and_then
  decrypt_parts-IsCurrent iv ciphertext tag h =
      let i = crypto.from_base64url iv in
      let c = crypto.from_base64url ciphertext in
      let t = crypto.from_base64url tag in
      elim (ApiResult-cases (derive_encryption_key crypto secret)) [
        | inr (x, e) ↦ ground arith
        | inl (key, e) ↦
            elim (Bool-cases ((not (length i == 12) || not (length t == 16)) || length c == 0)) [
              | inl bad ↦ ground arith
              | inr good ↦ elim (Option-cases (crypto.decrypt key i t c)) [
                | inl n ↦ ground arith
                | inr (m, d) ↦ (
                  m,
                  (
                    key,
                    (d, read_payload-IsCurrent _ m (rw (e, decrypt_parts, and_then, good, d) at h)),
                  ),
                )
              ]
            ]
      ]

  verify_encrypted_state-IsCurrent :
      (raw : Text) → verify_encrypted_state crypto now secret raw ≡ returned p → IsCurrent now p
  unfolding verify_encrypted_state
  verify_encrypted_state-IsCurrent raw h =
      let parts = split_dots [] raw in
      elim (Bool-cases (
        (text_eq (part 0 parts) state_version && truthy (some (part 1 parts)))
        && ((truthy (some (part 2 parts)) && truthy (some (part 3 parts)))
            && not (truthy (some (part 4 parts)))))) [
              | inr n ↦ ground arith
              | inl y ↦
                  (decrypt_parts-IsCurrent (part 1 parts) (part 2 parts) (part 3 parts)
                    (rw (y, verify_encrypted_state) at h)).1.1.1
            ]

  verify_parts-IsCurrent :
      (parts : List Text) → verify_parts crypto now secret parts ≡ returned p → IsCurrent now p
  unfolding verify_parts
  verify_parts-IsCurrent [] h = cc
  verify_parts-IsCurrent (t ∷ []) h = cc
  verify_parts-IsCurrent (t ∷ (s ∷ (u ∷ us))) h = cc
  verify_parts-IsCurrent (t ∷ (s ∷ [])) h =
      elim (Bool-cases (text_eq s (crypto.hmac_base64url secret t))) [
        | inr n ↦ ground arith
        | inl y ↦ read_payload-IsCurrent _ (crypto.from_base64url t) (rw (y, verify_parts) at h)
      ]

  verify_legacy_signed_state-IsCurrent :
      (raw : Text) → verify_legacy_signed_state crypto now secret raw ≡ returned p → IsCurrent now p
  unfolding verify_legacy_signed_state and_then
  verify_legacy_signed_state-IsCurrent raw h = elim (ApiResult-cases (assert_secret secret)) [
    | inr (x, e) ↦ ground arith
    | inl (u, e) ↦
        verify_parts-IsCurrent (split_dots [] raw)
          (rw (e, verify_legacy_signed_state, and_then) at h)
  ]

  -- Whatever state a browser brings: where it is accepted, the payload has a session, a tenant and a
  -- nonce, and its expiry is not over.
  pub verify_signed_state-IsCurrent :
      (state : Text) → verify_signed_state crypto now secret state ≡ returned p → IsCurrent now p
  unfolding verify_signed_state
  verify_signed_state-IsCurrent state h =
      let raw = trim state in
      elim (Bool-cases (not (truthy (some raw)) || ltb 4096 (length raw))) [
        | inl bad ↦ ground arith
        | inr good ↦ elim (Bool-cases (starts_with raw (state_version ++ (b'.' ∷ [])))) [
          | inl new ↦
              verify_encrypted_state-IsCurrent raw (rw (good, verify_signed_state, new) at h)
          | inr old ↦
              verify_legacy_signed_state-IsCurrent raw (rw (good, verify_signed_state, old) at h)
        ]
      ]
