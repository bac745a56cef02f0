-- ===== src/Worker/Retry/Bounds.antt =====
-- How many calls `withRetry` makes, how long it sleeps, and what it returns.
use bevoac_dev.Prelude.{
  ℕ, zero, suc, ◌+◌, ◌*◌, ◌≤◌, ◌<◌, ◌≡◌, refl, ◌⊎◌, inl, inr, ◌∙◌, Bool, true, false, none, length,
  All, max, Bool-cases, arith,
}
use bevoac_dev.Worker.Errors.{Outcome, ok, raised, Thrown}
use bevoac_dev.Worker.Retry.{
  Policy, Calls, Run, retry_after_ms, delay_of, delay_at, attempts, with_retry,
}

module _ {ℓ} {A : Type ℓ} (p : Policy) (c : Calls A) where
  attempts-calls :
      (left n : ℕ)
      → ((attempts p c left n).calls ≤ suc left)
        × ((attempts p c left n).calls ≤ suc (length (attempts p c left n).sleeps))
  unfolding attempts
  attempts-calls zero n = ground arith
  attempts-calls (suc left) n = let h = attempts-calls left (suc n) in ground arith

  -- `fn` is called at most `retries + 1` times, whatever it answers.
  pub with_retry-calls : (with_retry p c).calls ≤ suc p.retries
  unfolding with_retry
  with_retry-calls = (attempts-calls p.retries 0).0

  delay_at-le :
      (n seconds : ℕ)
      → c.retry_after n ≤ seconds
      → c.jitter n < 250
      → delay_at p c n ≤ max (seconds * 1000) (p.max_delay_ms + 249)
  unfolding delay_at retry_after_ms delay_of
  delay_at-le n seconds r j = ground arith

  module _ (seconds : ℕ) (short : (n : ℕ) → c.retry_after n ≤ seconds)
      (small : (n : ℕ) → c.jitter n < 250) where
    attempts-sleeps :
        (left n : ℕ)
        → All (λ ms. ms ≤ max (seconds * 1000) (p.max_delay_ms + 249)) (attempts p c left n).sleeps
    unfolding attempts
    attempts-sleeps zero n = ground arith
    attempts-sleeps (suc left) n =
        let d = delay_at-le n seconds (short n) (small n) in
        let h = attempts-sleeps left (suc n) in ground arith

    -- Where Azure never asks for more than `seconds`, no sleep is longer than that or than the policy's
    -- longest delay with its jitter.
    pub with_retry-sleeps :
        All (λ ms. ms ≤ max (seconds * 1000) (p.max_delay_ms + 249)) (with_retry p c).sleeps
    unfolding with_retry
    with_retry-sleeps = attempts-sleeps p.retries 0

  -- an answer that the loop tries again
  abbrev pub retries_on : Outcome A → Bool
  retries_on (ok a) = false
  retries_on (raised e) = p.should_retry e

  -- The run that ends with the answer of attempt `m`.
  pub record Ends (r : Run A) (from left m : ℕ) : Type ℓ where
    pub late : from ≤ m
    pub within : m ≤ from + left
    pub last : r.outcome ≡ c.answer m
    pub retried : (k : ℕ) → from ≤ k → k < m → retries_on (c.answer k) ≡ true
    pub settled : (retries_on (c.answer m) ≡ false) ⊎ (m ≡ from + left)

  Outcome-cases :
      (r : Outcome A)
      → ((e : Thrown) × (r ≡ raised e) × (p.should_retry e ≡ true)) ⊎ (retries_on r ≡ false)
  Outcome-cases (ok a) = inr refl
  Outcome-cases (raised e) = elim (Bool-cases (p.should_retry e)) [
    | inl h ↦ inl (e, refl, h)
    | inr h ↦ inr h
  ]

  module _ (calm : (n : ℕ) → c.aborted n ≡ none) (awake : (n : ℕ) → c.sleep_aborted n ≡ none) where
    attempts-no_left : (n : ℕ) → (attempts p c zero n).outcome ≡ c.answer n
    unfolding attempts
    attempts-no_left n = rw (calm n, attempts) refl

    attempts-final :
        (left n : ℕ)
        → retries_on (c.answer n) ≡ false
        → (attempts p c (suc left) n).outcome ≡ c.answer n
    unfolding attempts
    attempts-final left n h = let e = calm n in ground arith

    attempts-again :
        (left n : ℕ) (e : Thrown)
        → c.answer n ≡ raised e
        → p.should_retry e ≡ true
        → (attempts p c (suc left) n).outcome ≡ (attempts p c left (suc n)).outcome
    unfolding attempts
    attempts-again left n e h again = rw (calm n, h, again, awake n, attempts) refl

    attempts-Ends : (left n : ℕ) → (m : ℕ) × Ends (attempts p c left n) n left m
    attempts-Ends zero n = (
      n,
      record {
        late = omega arith;
        within = omega arith;
        last = attempts-no_left n;
        retried = λ k a b. ground arith;
        settled = inr (omega arith);
      },
    )
    attempts-Ends (suc left) n = elim (Outcome-cases (c.answer n)) [
      | inr final ↦ (
        n,
        record {
          late = omega arith;
          within = omega arith;
          last = attempts-final left n final;
          retried = λ k a b. ground arith;
          settled = inl final;
        },
      )
      | inl (e, raises, again) ↦
          let (m, h) = attempts-Ends left (suc n) in
          (
            m,
            record {
              late = let q = h.late in omega arith;
              within = let q = h.within in omega arith;
              last = attempts-again left n e raises again ∙ h.last;
              retried = λ k a b. elim (first_or_later n k a) [
                | inl e0 ↦ rw (e0, raises) again
                | inr later ↦ h.retried k later b
              ];
              settled = elim h.settled [ inl x ↦ inl x | inr x ↦ inr (omega arith) ];
            },
          )
    ]
      where
        first_or_later : (n k : ℕ) → n ≤ k → (k ≡ n) ⊎ (suc n ≤ k)
        first_or_later n k a = omega arith

    -- Without aborts the run ends with the answer of an attempt `m`, after retryable failures alone:
    -- a success, a failure that is not retryable, or the last attempt allowed.
    pub with_retry-Ends : (m : ℕ) × Ends (with_retry p c) 0 p.retries m
    unfolding with_retry
    with_retry-Ends = attempts-Ends p.retries 0
