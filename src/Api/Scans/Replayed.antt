-- ===== src/Api/Scans/Replayed.antt =====
-- A request that is sent again, by a customer who has its answer or who lost it.
use bevoac_dev.Prelude.{◌≡◌, refl, sym, ap, ◌∙◌, true, Option, some, List, [], ◌∷◌, arith, eq_refl}
use bevoac_dev.Prelude.Text.{Text, text_eq_refl, truthy, or_text, trim}
use bevoac_dev.Prelude.Table.{get}
use bevoac_dev.Database.{ScanRow}
use bevoac_dev.Api.Errors.{returned}
use bevoac_dev.Api.Contract.{Azure}
use bevoac_dev.Api.CanonicalJson.{Json, sha256_canonical}
use bevoac_dev.Api.Scans.{
  IdempotencyRow, ApiDb, Tools, ScanRequest, Draws, Idempotency, resolve_idempotency,
  build_request_fingerprint, build_stored_request_fingerprint,
}
use bevoac_dev.Api.Scans.Create.{
  CreatedScan, ReusedScan, created, reused, authorize_target, authorize_scopes,
  authorize_customer_targets, find_key, select_existing, stored_fingerprint, existing_scan_response,
  answer_existing, find_or_insert, Fate, works, transact, attempt, create_scan_request,
}
use bevoac_dev.Api.Scans.Runs.{create-returned, attempt-works}
use bevoac_dev.Api.Scans.Traces.{create-Creation}

-- The authorisation reads the scopes and the web targets, and no other table.
pub authorize-cong :
    (tools : Tools) (q : ScanRequest) (db later : ApiDb)
    → later.scopes ≡ db.scopes
    → later.web_targets ≡ db.web_targets
    → authorize_customer_targets tools later q ≡ authorize_customer_targets tools db q
unfolding authorize_customer_targets authorize_target authorize_scopes
authorize-cong tools q db later e f =
    ap (λ s. authorize_customer_targets tools (record later { scopes = s }) q) e
    ∙ ap (λ t. authorize_customer_targets tools (record db { web_targets = t }) q) f

-- A client's key is resolved without a draw.
resolve_idempotency-given :
    (new_key newer_key : Text) (input : Option Text)
    → truthy (some (trim (or_text input []))) ≡ true
    → resolve_idempotency new_key input ≡ resolve_idempotency newer_key input
unfolding resolve_idempotency
resolve_idempotency-given new_key newer_key input h = rw h refl

fingerprint_truthy :
    (tools : Tools) (cloud_provider scan_profile : Text) (modules : List Text) (azure : Azure)
    → ((v : Json) → truthy (some (tools.stringify_and_hash v)) ≡ true)
    → truthy (some (build_request_fingerprint tools cloud_provider scan_profile modules azure))
      ≡ true
unfolding build_request_fingerprint sha256_canonical
fingerprint_truthy tools cloud_provider scan_profile modules azure h = h _

or_text-truthy : (t d : Text) → truthy (some t) ≡ true → or_text (some t) d ≡ t
or_text-truthy [] d h = cc
or_text-truthy (c ∷ s) d h = refl

module _ (tools : Tools) (q : ScanRequest) (draws again : Draws) (race : ApiDb → ApiDb)
    (db after later : ApiDb) (c : CreatedScan) (s : ScanRow) where
  -- what the key of a new scan says afterwards
  answered : (fingerprint : Text) → Idempotency → IdempotencyRow
  answered fingerprint idem = record {
    tenant_id = q.tenant_id;
    idempotency_key = idem.key;
    key_source = some idem.source;
    request_fingerprint = some fingerprint;
    scan_id = draws.scan_id;
    created_at = draws.now;
  }

  select_existing-answered :
      (idem : Idempotency) (fingerprint : Text)
      → find_key q.tenant_id idem.key later.idempotency ≡ some (answered fingerprint idem)
      → get later.shared.scans draws.scan_id ≡ some s
      → s.tenant_id ≡ q.tenant_id
      → select_existing q.tenant_id idem.key later ≡ some (answered fingerprint idem, s)
  unfolding select_existing answered
  select_existing-answered idem fingerprint key there mine = ground arith

  answer_existing-answered :
      (idem : Idempotency) (fingerprint : Text)
      → truthy (some fingerprint) ≡ true
      → answer_existing tools fingerprint idem.key (answered fingerprint idem, s)
        ≡ returned (reused (existing_scan_response (answered fingerprint idem) s))
  unfolding answer_existing stored_fingerprint answered
  answer_existing-answered idem fingerprint t =
      rw
        (
          or_text-truthy fingerprint (build_stored_request_fingerprint tools s) t,
          text_eq_refl fingerprint,
          stored_fingerprint,
          answer_existing,
        )
        refl

  find_or_insert-answered :
      (idem : Idempotency) (fingerprint : Text) (azure : Azure)
      → truthy (some fingerprint) ≡ true
      → find_key q.tenant_id idem.key later.idempotency ≡ some (answered fingerprint idem)
      → get later.shared.scans draws.scan_id ≡ some s
      → s.tenant_id ≡ q.tenant_id
      → find_or_insert tools q again idem fingerprint azure later
        ≡ (returned (reused (existing_scan_response (answered fingerprint idem) s)), later)
  unfolding find_or_insert
  find_or_insert-answered idem fingerprint azure t key there mine =
      rw
        (
          select_existing-answered idem fingerprint key there mine,
          find_or_insert,
          answer_existing-answered idem fingerprint t,
        )
        refl

  -- A client's request with a non-empty Idempotency-Key that was answered with a new scan, and comes
  -- again while the tables of scopes, web targets and keys are as they were, is answered with the same
  -- scan, in the status that it has by now, and no table changes. (The hash is never empty.)
  pub create_scan_request-replay :
      (fate : Fate)
      → ((v : Json) → truthy (some (tools.stringify_and_hash v)) ≡ true)
      → truthy (some (trim (or_text q.idempotency_key []))) ≡ true
      → create_scan_request tools q draws fate race db ≡ (returned (created c), after)
      → later.idempotency ≡ after.idempotency
      → later.scopes ≡ after.scopes
      → later.web_targets ≡ after.web_targets
      → get later.shared.scans c.scan_id ≡ some s
      → s.tenant_id ≡ q.tenant_id
      → (r : ReusedScan) × ((create_scan_request tools q again works race later
            ≡ (returned (reused r), later))
          × ((r.scan_id ≡ c.scan_id) × (r.status ≡ s.status)))
  unfolding create_scan_request attempt transact existing_scan_response answered find_key
  create_scan_request-replay fate hashes given h keys scopes targets there mine =
      let k = create-Creation tools q draws fate race db after c h in
      let w = k.written in
      let idem = k.idem in
      let fingerprint =
        build_request_fingerprint tools q.cloud_provider q.scan_profile q.modules k.azure in
      let id = ap (λ x. x.scan_id) w.answer in
      let resolved =
        resolve_idempotency-given again.new_key draws.new_key q.idempotency_key given
        ∙ k.resolved in
      let authorized =
        authorize-cong tools q db later (scopes ∙ w.others.0) (targets ∙ w.others.1)
        ∙ k.authorized in
      let found : find_key q.tenant_id idem.key later.idempotency
          ≡ some (answered fingerprint idem) =
        ap (find_key q.tenant_id idem.key) (keys ∙ w.keys)
        ∙ rw (eq_refl q.tenant_id, text_eq_refl idem.key) refl in
      let body =
        find_or_insert-answered idem fingerprint k.azure
          (fingerprint_truthy tools q.cloud_provider q.scan_profile q.modules k.azure hashes) found
          (ap (get later.shared.scans) (sym id) ∙ there) mine in
      (
        existing_scan_response (answered fingerprint idem) s,
        (
          create-returned tools q again race later works idem (some fingerprint)
              (reused (existing_scan_response (answered fingerprint idem) s)) later resolved
              (attempt-works tools q again later idem k.azure _ authorized body),
          (sym id, refl),
        ),
      )
