-- ===== src/Api/Scans/Lost.antt =====
-- A request whose transaction the server commits without an answer, or that loses the race for its key.
use bevoac_dev.Prelude.{
  ◌≡◌, refl, sym, ap, ◌∙◌, ◌⊎◌, inl, inr, true, false, Option, some, [], eq_refl, Bool-cases,
}
use bevoac_dev.Prelude.Text.{Text, text_eq, truthy, or_text, trim}
use bevoac_dev.Prelude.Table.{get, get-put}
use bevoac_dev.Database.{ScanRow, ScanStatus}
use bevoac_dev.Api.Errors.{DbError, idempotency_conflict, database_error, returned, failed}
use bevoac_dev.Api.Contract.{Azure}
use bevoac_dev.Api.CanonicalJson.{Json}
use bevoac_dev.Api.Scans.{
  IdempotencyRow, ApiDb, Tools, ScanRequest, Draws, Idempotency, resolve_idempotency,
}
use bevoac_dev.Api.Scans.Create.{
  CreatedScan, ReusedScan, created, reused, authorize_customer_targets, select_existing, new_scan,
  stored_fingerprint, existing_scan_response, answer_existing, find_or_insert, Fate, works,
  interrupted, lost_answer, handle_error, create_scan_request,
}
use bevoac_dev.Api.Scans.Traces.{create-Creation}
use bevoac_dev.Api.Scans.Runs.{
  create-returned, create-failed, fingerprint_of, attempt-works, attempt-lost, attempt-interrupted,
}
use bevoac_dev.Api.Scans.Replayed.{authorize-cong, create_scan_request-replay}

module _ (tools : Tools) (q : ScanRequest) (draws : Draws) (idem : Idempotency) where
  -- An error that is no violation of a unique constraint is thrown again.
  handle_error-other :
      (f : Option Text) (e : DbError) (t : ApiDb)
      → e.is_unique_violation ≡ false
      → handle_error tools q draws idem f (database_error e) t ≡ failed (database_error e)
  unfolding handle_error
  handle_error-other f e t h = rw (h, handle_error) refl

  handle_error-found :
      (f : Text) (d : DbError) (e : IdempotencyRow × ScanRow) (t : ApiDb)
      → d.is_unique_violation ≡ true
      → select_existing q.tenant_id idem.key t ≡ some e
      → handle_error tools q draws idem (some f) (database_error d) t
        ≡ answer_existing tools f idem.key e
  unfolding handle_error
  handle_error-found f d e t h there = rw (h, there, handle_error) refl

  find_or_insert-found :
      (f : Text) (azure : Azure) (e : IdempotencyRow × ScanRow) (t : ApiDb)
      → select_existing q.tenant_id idem.key t ≡ some e
      → find_or_insert tools q draws idem f azure t ≡ (answer_existing tools f idem.key e, t)
  unfolding find_or_insert
  find_or_insert-found f azure e t there = rw (there, find_or_insert) refl

  -- A key that is used is answered with its scan, or with the conflict.
  answer_existing-cases :
      (f : Text) (e : IdempotencyRow × ScanRow)
      → ((x : ReusedScan) × (answer_existing tools f idem.key e ≡ returned (reused x)))
        ⊎ (answer_existing tools f idem.key e ≡ failed (idempotency_conflict idem.key))
  unfolding answer_existing
  answer_existing-cases f (i, r) = elim (Bool-cases (text_eq (stored_fingerprint tools i r) f)) [
    | inl same ↦ inl (existing_scan_response i r, rw (same, answer_existing) refl)
    | inr other ↦ inr (rw (other, answer_existing) refl)
  ]

  create-found :
      (azure : Azure) (e : IdempotencyRow × ScanRow) (t : ApiDb)
      → resolve_idempotency draws.new_key q.idempotency_key ≡ returned idem
      → authorize_customer_targets tools t q ≡ returned azure
      → select_existing q.tenant_id idem.key t ≡ some e
      → create_scan_request tools q draws works (λ x. x) t
        ≡ (answer_existing tools (fingerprint_of tools q azure t) idem.key e, t)
  unfolding handle_error
  create-found azure e t resolved authorized there =
      let f = fingerprint_of tools q azure t in
      let body = find_or_insert-found f azure e t there in
      elim (answer_existing-cases f e) [
        | inl (x, same) ↦
            create-returned tools q draws (λ d. d) t works idem (some f) (reused x) t resolved
              (attempt-works tools q draws t idem azure _ authorized (body ∙ ap (λ r. (r, t)) same))
            ∙ ap (λ r. (r, t)) (sym same)
        | inr other ↦
            create-failed tools q draws (λ d. d) t works idem (some f)
              (idempotency_conflict idem.key) t resolved
              (attempt-works tools q draws t idem azure _ authorized
                (body ∙ ap (λ r. (r, t)) other))
            ∙ ap (λ r. (r, t)) (sym other)
      ]

-- A request that would be answered with a new scan, but whose answer to COMMIT is lost, has written the
-- same tables, and the customer gets the error of the database.
pub create_scan_request-lost :
    (tools : Tools) (q : ScanRequest) (draws : Draws) (fate : Fate) (race others : ApiDb → ApiDb)
    (db after : ApiDb) (c : CreatedScan) (e : DbError)
    → create_scan_request tools q draws fate race db ≡ (returned (created c), after)
    → e.is_unique_violation ≡ false
    → create_scan_request tools q draws (lost_answer e) others db
      ≡ (failed (database_error e), others after)
create_scan_request-lost tools q draws fate race others db after c e h unique =
    let k = create-Creation tools q draws fate race db after c h in
    let fingerprint = some (fingerprint_of tools q k.azure db) in
    create-failed tools q draws others db (lost_answer e) k.idem fingerprint (database_error e)
      after k.resolved
      (attempt-lost tools q draws db k.idem k.azure (returned (created c), after) k.authorized
        k.body e)
    ∙ ap (λ r. (r, others after))
        (handle_error-other tools q draws k.idem fingerprint e (others after) unique)

-- After a lost answer to COMMIT, the same request, sent again with its non-empty Idempotency-Key, is
-- answered with the scan that was written, and no table changes, if the error of the lost answer is no
-- unique violation and the hash is never empty.
pub create_scan_request-retried :
    (tools : Tools) (q : ScanRequest) (draws again : Draws) (fate : Fate) (race : ApiDb → ApiDb)
    (db after : ApiDb) (c : CreatedScan) (e : DbError)
    → ((v : Json) → truthy (some (tools.stringify_and_hash v)) ≡ true)
    → truthy (some (trim (or_text q.idempotency_key []))) ≡ true
    → create_scan_request tools q draws fate race db ≡ (returned (created c), after)
    → e.is_unique_violation ≡ false
    → (r : ReusedScan) × ((create_scan_request tools q again works race
            (create_scan_request tools q draws (lost_answer e) (λ d. d) db).1
          ≡ (returned (reused r), after))
        × ((r.scan_id ≡ c.scan_id) × (r.status ≡ ScanStatus.pending)))
unfolding new_scan
create_scan_request-retried tools q draws again fate race db after c e hashes given h unique =
    let k = create-Creation tools q draws fate race db after c h in
    let w = k.written in
    let row = new_scan q k.azure k.authorization draws in
    let there : get after.shared.scans c.scan_id ≡ some row =
      rw (ap (λ x. x.scan_id) w.answer, w.shared)
        (get-put draws.scan_id draws.scan_id row db.shared.scans
          ∙ rw (eq_refl draws.scan_id) refl) in
    let (r, (eq, facts)) =
      create_scan_request-replay tools q draws again race db after after c row fate hashes given h
        refl refl refl there refl in
    (
      r,
      (
        ap (λ d. create_scan_request tools q again works race d.1)
              (create_scan_request-lost tools q draws fate race (λ d. d) db after c e h unique)
            ∙ eq,
        facts,
      ),
    )

-- A request that loses the race for its key to another transaction, and is interrupted by the violation
-- of the unique constraint, is answered as if it had come after the winner, if the customer's scopes and
-- web targets are as before.
pub create_scan_request-race :
    (tools : Tools) (q : ScanRequest) (draws : Draws) (others : ApiDb → ApiDb) (db : ApiDb)
    (idem : Idempotency) (azure : Azure) (d : DbError) (winner : IdempotencyRow × ScanRow)
    → resolve_idempotency draws.new_key q.idempotency_key ≡ returned idem
    → authorize_customer_targets tools db q ≡ returned azure
    → (others db).scopes ≡ db.scopes
    → (others db).web_targets ≡ db.web_targets
    → d.is_unique_violation ≡ true
    → select_existing q.tenant_id idem.key (others db) ≡ some winner
    → create_scan_request tools q draws (interrupted true d) others db
      ≡ create_scan_request tools q draws works (λ x. x) (others db)
create_scan_request-race tools q draws others db idem azure d winner resolved authorized s t unique
      there =
    let f = fingerprint_of tools q azure db in
    create-failed tools q draws others db (interrupted true d) idem (some f) (database_error d) db
      resolved (attempt-interrupted tools q draws db idem azure _ authorized refl d)
    ∙ (ap (λ r. (r, others db))
          (handle_error-found tools q draws idem f d winner (others db) unique there)
        ∙ sym (
            create-found tools q draws idem azure winner (others db) resolved
              (authorize-cong tools q db (others db) s t ∙ authorized) there))
