-- ===== src/Worker/Retry.antt =====
-- lib/retry.js of the worker: `withRetry`, the loop around a call of Azure.
pub mod Bounds
use bevoac_dev.Prelude.{
  ℕ, zero, suc, ◌+◌, ◌*◌, ◌^◌, ◌-◌, min, Bool, true, false, Option, none, some, List, [], ◌∷◌, ltb,
  if◌then◌else◌,
}
use bevoac_dev.Worker.Errors.{Outcome, ok, raised, Thrown}

-- `retries`, `baseDelayMs`, `maxDelayMs` and `shouldRetry`
pub record Policy : Type 0 where
  pub retries : ℕ
  pub base_delay_ms : ℕ
  pub max_delay_ms : ℕ
  pub should_retry : Thrown → Bool

-- What happens around the calls, by the number of the attempt: the answer of `fn`, the whole seconds of
-- the header retry-after (0 where it is absent or no positive number), the jitter (below 250), and the
-- reason of an abort that is seen before the call, or that ends the sleep after it.
pub record Calls {ℓ} (A : Type ℓ) : Type ℓ where
  pub answer : ℕ → Outcome A
  pub retry_after : ℕ → ℕ
  pub jitter : ℕ → ℕ
  pub aborted : ℕ → Option Thrown
  pub sleep_aborted : ℕ → Option Thrown

-- A run: its outcome, the number of calls of `fn`, and the sleeps in milliseconds, in order.
pub record Run {ℓ} (A : Type ℓ) : Type ℓ where
  pub outcome : Outcome A
  pub calls : ℕ
  pub sleeps : List ℕ

-- `retryAfterMs`
unfoldable pub retry_after_ms : ℕ → Option ℕ
retry_after_ms seconds = if ltb 0 seconds then some (seconds * 1000) else none

-- `retryAfter || Math.min(maxDelayMs, baseDelayMs * Math.pow(2, attempt)) + jitter`
unfoldable pub delay_of : Policy → Option ℕ → ℕ → ℕ → ℕ
delay_of p (some ms) jitter attempt = ms
delay_of p none jitter attempt = min p.max_delay_ms (p.base_delay_ms * 2 ^ attempt) + jitter

module _ {ℓ} {A : Type ℓ} (p : Policy) (c : Calls A) where
  unfoldable pub delay_at : ℕ → ℕ
  unfolding retry_after_ms delay_of
  delay_at attempt = delay_of p (retry_after_ms (c.retry_after attempt)) (c.jitter attempt) attempt

  abbrev pub stop : Outcome A → ℕ → Run A
  stop r calls = record { outcome = r; calls = calls; sleeps = [] }

  -- one more call and sleep before a run
  abbrev pub after_sleep : ℕ → Run A → Run A
  after_sleep ms r = record { outcome = r.outcome; calls = suc r.calls; sleeps = ms ∷ r.sleeps }

  -- The loop at `attempt`, with `left` retries left, that is `retries - attempt`.
  unfoldable pub attempts : (left attempt : ℕ) → Run A
  attempts zero n = elim (c.aborted n) [
    | some reason ↦ stop (raised reason) 0
    | none ↦ stop (c.answer n) 1
  ]
  attempts (suc left) n =
      let rest = attempts left (suc n) in
      elim (c.aborted n) [
        | some reason ↦ stop (raised reason) 0
        | none ↦ elim (c.answer n) [
          | ok a ↦ stop (ok a) 1
          | raised e ↦
              if p.should_retry e
              then elim (c.sleep_aborted n) [
                | some reason ↦ record {
                  outcome = raised reason;
                  calls = 1;
                  sleeps = delay_at n ∷ [];
                }
                | none ↦ after_sleep (delay_at n) rest
              ]
              else stop (raised e) 1
        ]
      ]

  unfoldable pub with_retry : Run A
  unfolding attempts
  with_retry = attempts p.retries 0
