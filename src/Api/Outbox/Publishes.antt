-- ===== src/Api/Outbox/Publishes.antt =====
-- What the publication of the outbox guarantees.
use bevoac_dev.Prelude.{
  ℕ, ◌+◌, ◌≤◌, ◌≡◌, refl, inl, inr, Bool, true, false, ◌||◌, none, some, List, [], ◌∷◌, ◌++◌, take,
  length, length-take_le, any, ◌==◌, Bool-cases, Option-cases, arith,
}
use bevoac_dev.Prelude.Table.{Table, get, get-put}
use bevoac_dev.Worker.Store.Transaction.{Connection, healthy, before_commit, after_commit}
use bevoac_dev.Api.Outbox.{
  EventRow, is_published, candidates, by_age, update_event, lock_all, claim_pending, mark_published,
  mark_event_failed, Outbox, RowAnswers, commit, record_publish_failure, publish_row, Stats,
  publish_rows, publish_pending,
}

length-append_one : (l : List ℕ) (x : ℕ) → length (l ++ (x ∷ [])) ≡ length l + 1
length-append_one [] x = refl
length-append_one (y ∷ l) x = let p = length-append_one l x in omega arith

-- whether the row of an event says PUBLISHED
abbrev pub published_at : Table EventRow → ℕ → Bool
published_at rows id = elim (get rows id) [ none ↦ false | some r ↦ is_published r.status ]

abbrev pub was_sent : List ℕ → ℕ → Bool
was_sent sent id = any (λ k. k == id) sent

module _ (base : ℕ) (a : RowAnswers) where
  publish_rows-counts :
      (l : List (ℕ × EventRow)) (st : Stats) (s : Outbox)
      → length st.scan_ids ≡ st.published_count
      → let after = (publish_rows base a l (st, s)).0 in
        (after.claimed ≡ st.claimed)
        × ((after.published_count + after.failed_count
              ≡ st.published_count + (st.failed_count + length l))
            × (length after.scan_ids ≡ after.published_count))
  unfolding publish_rows
  publish_rows-counts [] st s h = (refl, (omega arith, h))
  publish_rows-counts ((id, r) ∷ l) st s h = elim (Bool-cases (publish_row base a id s).0) [
    | inl p ↦
        let st' : Stats = record st {
          published_count = st.published_count + 1;
          scan_ids = st.scan_ids ++ (r.aggregate_id ∷ []);
        } in
        let t = length-append_one st.scan_ids r.aggregate_id in
        let h' : length st'.scan_ids ≡ st'.published_count = omega arith in
        let (u, (v, w)) = publish_rows-counts l st' (publish_row base a id s).1 h' in
        rw (p, publish_rows) (u, (omega arith, w))
    | inr p ↦
        let (u, (v, w)) =
          publish_rows-counts l (record st { failed_count = st.failed_count + 1 })
            (publish_row base a id s).1 h in
        rw (p, publish_rows) (u, (omega arith, w))
  ]

  -- A publication counts each claimed event once, as published or as failed, names the scan of each
  -- published one, and claims at most `limit`.
  pub publish_pending-counts :
      (limit max_attempts : ℕ) (s : Outbox)
      → let st = (publish_pending base limit max_attempts a s).0 in
        (st.published_count + st.failed_count ≡ st.claimed)
        × ((length st.scan_ids ≡ st.published_count) × (st.claimed ≤ limit))
  unfolding publish_pending claim_pending
  publish_pending-counts limit max_attempts s =
      let claimed = take limit (by_age (candidates max_attempts a.now s.rows)) in
      let (u, (v, w)) =
        publish_rows-counts claimed
          (record {
            claimed = length claimed;
            published_count = 0;
            failed_count = 0;
            scan_ids = [];
          })
          (record s { rows = lock_all a.now claimed s.rows }) refl in
      let k = length-take_le limit (by_age (candidates max_attempts a.now s.rows)) in
      (omega arith, (w, rw u k))

  update-published :
      (k : ℕ) (change : EventRow → EventRow) (rows : Table EventRow) (id : ℕ)
      → ((r : EventRow) → is_published (change r).status ≡ false)
      → published_at (update_event k change rows) id ≡ true
      → published_at rows id ≡ true
  unfolding update_event
  update-published k change rows id quiet h = elim (Option-cases (get rows k)) [
    | inl e ↦ ground arith
    | inr (r, e) ↦ let q = quiet r in let g = get-put k id (change r) rows in ground arith
  ]

  update-any :
      (k : ℕ) (change : EventRow → EventRow) (rows : Table EventRow) (id : ℕ)
      → published_at (update_event k change rows) id ≡ true
      → (published_at rows id || k == id) ≡ true
  unfolding update_event
  update-any k change rows id h = elim (Option-cases (get rows k)) [
    | inl e ↦ ground arith
    | inr (r, e) ↦ let g = get-put k id (change r) rows in ground arith
  ]

  lock_all-published :
      (l : List (ℕ × EventRow)) (rows : Table EventRow) (id : ℕ)
      → published_at (lock_all a.now l rows) id ≡ true
      → published_at rows id ≡ true
  unfolding lock_all
  lock_all-published [] rows id h = h
  lock_all-published ((k, r) ∷ l) rows id h =
      update-published k _ rows id (λ r. refl) (lock_all-published l _ id h)

  failure-published :
      (k : ℕ) (rows : Table EventRow) (id : ℕ)
      → published_at (record_publish_failure base a k rows) id ≡ true
      → published_at rows id ≡ true
  unfolding record_publish_failure commit mark_event_failed
  failure-published k rows id h = by_connection (a.fail_connection k) h
    where
      by_connection :
          (con : Connection)
          → published_at (commit con (mark_event_failed base k (a.error_text k) a.now) rows).1 id
            ≡ true
          → published_at rows id ≡ true
      by_connection healthy p = update-published k _ rows id (λ r. refl) p
      by_connection (before_commit e) p = p
      by_connection (after_commit e) p = update-published k _ rows id (λ r. refl) p

  commit-published :
      (con : Connection) (k : ℕ) (rows : Table EventRow) (id : ℕ)
      → published_at (commit con (mark_published k a.now) rows).1 id ≡ true
      → (published_at rows id || k == id) ≡ true
  unfolding commit mark_published
  commit-published healthy k rows id h = update-any k _ rows id h
  commit-published (before_commit e) k rows id h = ground arith
  commit-published (after_commit e) k rows id h = update-any k _ rows id h

  publish_row-sent :
      (k : ℕ) (s : Outbox) (id : ℕ)
      → let s' = (publish_row base a k s).1 in
        published_at s'.rows id ≡ true → (published_at s.rows id || was_sent s'.sent id) ≡ true
  unfolding publish_row
  publish_row-sent k s id h = elim (Bool-cases (a.sends k)) [
    | inr p ↦ let q = failure-published k s.rows id (rw p at h) in rw (p, q) refl
    | inl p ↦
        let rows = (commit (a.publish_connection k) (mark_published k a.now) s.rows).1 in
        elim (Bool-cases (commit (a.publish_connection k) (mark_published k a.now) s.rows).0) [
          | inl t ↦
              let q = commit-published (a.publish_connection k) k s.rows id (rw (p, t) at h) in
              rw (p, t) (ground arith)
          | inr t ↦
              let q =
                commit-published (a.publish_connection k) k s.rows id
                  (failure-published k rows id (rw (p, t) at h)) in
              rw (p, t) (ground arith)
        ]
  ]

  publish_row-keeps :
      (k : ℕ) (s : Outbox) (id : ℕ)
      → was_sent s.sent id ≡ true
      → was_sent (publish_row base a k s).1.sent id ≡ true
  unfolding publish_row
  publish_row-keeps k s id h = ground arith

  publish_rows-sent :
      (l : List (ℕ × EventRow)) (st : Stats) (s : Outbox) (id : ℕ) (known : Bool)
      → (published_at s.rows id ≡ true → (known || was_sent s.sent id) ≡ true)
      → let s' = (publish_rows base a l (st, s)).1 in
        published_at s'.rows id ≡ true → (known || was_sent s'.sent id) ≡ true
  unfolding publish_rows
  publish_rows-sent [] st s id known inv h = inv h
  publish_rows-sent ((k, r) ∷ l) st s id known inv h =
      publish_rows-sent l _ (publish_row base a k s).1 id known
        (λ p. carry _ known _ _ (publish_row-sent k s id p) inv (publish_row-keeps k s id)) h
    where
      carry :
          (was known sent sent' : Bool)
          → (was || sent') ≡ true
          → (was ≡ true → (known || sent) ≡ true)
          → (sent ≡ true → sent' ≡ true)
          → (known || sent') ≡ true
      carry was true sent sent' h inv keeps = refl
      carry true false sent sent' h inv keeps = keeps (inv refl)
      carry false false sent sent' h inv keeps = h

  -- After a publication, an event that is PUBLISHED was so before, or its message was sent.
  pub publish_pending-sent :
      (limit max_attempts : ℕ) (s : Outbox) (id : ℕ)
      → published_at (publish_pending base limit max_attempts a s).1.rows id ≡ true
      → (published_at s.rows id || was_sent (publish_pending base limit max_attempts a s).1.sent id)
        ≡ true
  unfolding publish_pending claim_pending
  publish_pending-sent limit max_attempts s id h =
      let claimed = take limit (by_age (candidates max_attempts a.now s.rows)) in
      publish_rows-sent claimed _ _ id (published_at s.rows id)
        (λ p. rw (lock_all-published claimed s.rows id p) refl) h
