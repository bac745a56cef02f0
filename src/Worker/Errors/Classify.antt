-- ===== src/Worker/Errors/Classify.antt =====
-- What the classification of thrown values guarantees.
use bevoac_dev.Prelude.{
  ℕ, ◌≤◌, ◌≡◌, refl, ◌⊎◌, length, All, All-take, All-map, length-take_le, arith,
}
use bevoac_dev.Prelude.Text.{text_eq}
use bevoac_dev.Worker.Errors.{
  JsError, Thrown, js, worker, safe_unit, safe_code, classify_worker_error, is_retryable_error,
  retry_message, terminal_message, permission_message,
}

-- The units that may stand in an error code.
abbrev pub IsSafe : ℕ → Type 0
IsSafe c =
    ((b'A' ≤ c) × (c ≤ b'Z'))
    ⊎ (((b'0' ≤ c) × (c ≤ b'9')) ⊎ ((c ≡ b'_') ⊎ ((c ≡ b'.') ⊎ (c ≡ b'-'))))

safe_unit-IsSafe : (c : ℕ) → IsSafe (safe_unit c)
unfolding safe_unit
safe_unit-IsSafe c = ground arith

-- The code that is taken from an error holds at most 120 units, each of them an upper-case letter, a
-- digit, or one of `_`, `.` and `-`, whatever text the error carried.
pub safe_code_bounds : (e : JsError) → (length (safe_code e) ≤ 120) × All IsSafe (safe_code e)
unfolding safe_code
safe_code_bounds e =
    (length-take_le 120 _, All-take IsSafe 120 _ (All-map IsSafe safe_unit _ safe_unit-IsSafe))

-- Classification keeps the retry decision, and is idempotent.
pub classify_keeps :
    (t : Thrown)
    → ((classify_worker_error t).retryable ≡ is_retryable_error t)
      × (classify_worker_error (worker (classify_worker_error t)) ≡ classify_worker_error t)
unfolding classify_worker_error is_retryable_error
classify_keeps (js e) = (ground arith, refl)
classify_keeps (worker f) = (refl, refl)

-- A customer is told of a retry exactly when the error may be retried: the public message of any error
-- that is no failure of the worker is then `retry_message`, and another one otherwise.
pub classify_tells :
    (e : JsError)
    → text_eq (classify_worker_error (js e)).public_message retry_message
      ≡ is_retryable_error (js e)
unfolding classify_worker_error is_retryable_error
classify_tells e = ground arith

-- A plain error's customer message is one of three fixed texts: its own message never leaks.
pub classify_message_fixed :
    (e : JsError)
    → let message = (classify_worker_error (js e)).public_message in
      (message ≡ retry_message) ⊎ ((message ≡ permission_message) ⊎ (message ≡ terminal_message))
unfolding classify_worker_error
classify_message_fixed e = ground arith
