-- ===== src/Api/OnboardingState/RoundTrip.antt =====
-- A state that is created is read back.
use mathlib.Core.List.{reverse}
use bevoac_dev.Prelude.{
  ℕ, ◌≤◌, ◌≡◌, refl, sym, ap, ◌∙◌, subst, true, false, not, ◌||◌, some, [], ◌∷◌, ◌++◌, ltb, ◌==◌,
  length, all, arith,
}
use bevoac_dev.Prelude.Text.{Text, trim, trim_start, is_space, starts_with, truthy}
use bevoac_dev.Api.Errors.{ApiResult, returned, failed, and_then}
use bevoac_dev.Api.Hosts.Dots.{is_plain, all-reverse_aux, reverse-reverse, split_dots-four}
use bevoac_dev.Api.OnboardingState.{
  Bytes, Payload, Crypto, validate_payload, read_payload, derive_encryption_key, state_version,
  create_signed_state, decrypt_parts, verify_encrypted_state, verify_signed_state,
}

abbrev Spaceless : Text → Type 0
Spaceless s = all (λ c. not (is_space c)) s ≡ true

Spaceless-join : (s t : Text) → Spaceless s → Spaceless t → Spaceless (s ++ (b'.' ∷ t))
Spaceless-join [] t h k = k
Spaceless-join (c ∷ s) t h k = ground (arith, Spaceless-join s t (ground arith) k)

-- `trim` leaves a text without spaces.
trim_start-plain : (s : Text) → all (λ c. not (is_space c)) s ≡ true → trim_start s ≡ s
unfolding trim_start
trim_start-plain [] h = refl
trim_start-plain (c ∷ s) h = ground arith

trim-plain : (s : Text) → all (λ c. not (is_space c)) s ≡ true → trim s ≡ s
unfolding trim
trim-plain s h =
    ap (λ t. reverse (trim_start (reverse t))) (trim_start-plain s h)
    ∙ (ap reverse
          (trim_start-plain (reverse s) (all-reverse_aux (λ c. not (is_space c)) s [] h refl))
        ∙ reverse-reverse s)

spaceless : (s : Text) → all is_plain s ≡ true → Spaceless s
spaceless [] h = refl
spaceless (c ∷ s) h = ground (arith, spaceless s (ground arith))

-- how the bytes are written: read back as they were, in units of base64url, and not as the empty text
abbrev pub Encoded : Crypto → Bytes → Type 0
Encoded crypto b =
    (crypto.from_base64url (crypto.to_base64url b) ≡ b)
    × ((all is_plain (crypto.to_base64url b) ≡ true)
        × (truthy (some (crypto.to_base64url b)) ≡ true))

text_or : Text → ApiResult Text → Text
text_or d (returned t) = t
text_or d (failed e) = d

module _ (crypto : Crypto) (now : ℕ) (secret : Text) (payload : Payload)
    (key iv ciphertext tag : Bytes) where
  -- the text of the three parts
  abbrev sealed : Text
  sealed =
      state_version
      ++ (b'.'
          ∷ (crypto.to_base64url iv
              ++ (b'.' ∷ (crypto.to_base64url ciphertext ++ (b'.' ∷ crypto.to_base64url tag)))))

  created-sealed :
      (state : Text)
      → derive_encryption_key crypto secret ≡ returned key
      → crypto.encrypt key iv (crypto.stringify payload) ≡ (ciphertext, tag)
      → create_signed_state crypto iv secret payload ≡ returned state
      → sealed ≡ state
  unfolding create_signed_state and_then text_or
  created-sealed state k e h = ap (text_or state) (rw (k, create_signed_state, and_then, e) at h)

  decrypt_parts-payload :
      derive_encryption_key crypto secret ≡ returned key
      → length iv ≡ 12
      → length tag ≡ 16
      → 1 ≤ length ciphertext
      → crypto.decrypt key iv tag ciphertext ≡ some (crypto.stringify payload)
      → crypto.parse (crypto.stringify payload) ≡ some (some payload)
      → Encoded crypto iv
      → Encoded crypto ciphertext
      → Encoded crypto tag
      → decrypt_parts crypto now secret
          (crypto.to_base64url iv)
          (crypto.to_base64url ciphertext)
          (crypto.to_base64url tag)
        ≡ validate_payload now (some payload)
  unfolding decrypt_parts and_then read_payload
  decrypt_parts-payload k l m n d p ei ec et =
      let sizes : ((not (length iv == 12) || not (length tag == 16)) || length ciphertext == 0)
          ≡ false =
        ground arith in
      rw (k, decrypt_parts, and_then, ei.0, ec.0, et.0, sizes, d, read_payload, p) refl

  verify_encrypted_state-sealed :
      Encoded crypto iv
      → Encoded crypto ciphertext
      → Encoded crypto tag
      → verify_encrypted_state crypto now secret sealed
        ≡ decrypt_parts crypto now secret
            (crypto.to_base64url iv)
            (crypto.to_base64url ciphertext)
            (crypto.to_base64url tag)
  unfolding verify_encrypted_state
  verify_encrypted_state-sealed ei ec et =
      rw
        (
          split_dots-four state_version (crypto.to_base64url iv) (crypto.to_base64url ciphertext)
              (crypto.to_base64url tag) refl ei.1.0 ec.1.0 et.1.0,
          verify_encrypted_state,
          ei.1.1,
          ec.1.1,
          et.1.1,
        )
        refl

  sealed-plain :
      Encoded crypto iv → Encoded crypto ciphertext → Encoded crypto tag → Spaceless sealed
  sealed-plain ei ec et =
      let i = crypto.to_base64url iv in
      let c = crypto.to_base64url ciphertext in
      let t = crypto.to_base64url tag in
      Spaceless-join state_version (i ++ (b'.' ∷ (c ++ (b'.' ∷ t)))) refl (
        Spaceless-join i (c ++ (b'.' ∷ t)) (spaceless i ei.1.0)
          (Spaceless-join c t (spaceless c ec.1.0) (spaceless t et.1.0)))

  -- A state that is created is verified to its payload, or to what is wrong with that by now: where the
  -- three byte strings are written and read back in base64url, the decryption undoes the encryption,
  -- the JSON of the payload is read back, the nonce has 12 bytes and the tag 16, the ciphertext is not
  -- empty, and the state has at most 4096 units.
  pub verify_signed_state-create :
      (state : Text)
      → derive_encryption_key crypto secret ≡ returned key
      → crypto.encrypt key iv (crypto.stringify payload) ≡ (ciphertext, tag)
      → crypto.decrypt key iv tag ciphertext ≡ some (crypto.stringify payload)
      → crypto.parse (crypto.stringify payload) ≡ some (some payload)
      → Encoded crypto iv
      → Encoded crypto ciphertext
      → Encoded crypto tag
      → length iv ≡ 12
      → length tag ≡ 16
      → 1 ≤ length ciphertext
      → create_signed_state crypto iv secret payload ≡ returned state
      → length state ≤ 4096
      → verify_signed_state crypto now secret state ≡ validate_payload now (some payload)
  unfolding verify_signed_state starts_with
  verify_signed_state-create state k e d p ei ec et l m n h short =
      let same = created-sealed state k e h in
      let clean : trim state ≡ sealed =
        ap trim (sym same) ∙ trim-plain sealed (sealed-plain ei ec et) in
      let bound : ltb 4096 (length sealed) ≡ false =
        subst (λ t. ltb 4096 (length t) ≡ false) (sym same) (ground arith) in
      rw (clean, verify_signed_state, bound, starts_with)
        (verify_encrypted_state-sealed ei ec et ∙ decrypt_parts-payload k l m n d p ei ec et)
