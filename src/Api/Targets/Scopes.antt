-- ===== src/Api/Targets/Scopes.antt =====
-- What a resolved Azure scope guarantees.
use bevoac_dev.Prelude.{
  ℕ, ◌≡◌, refl, sym, ap, ◌∙◌, subst, ◌⊎◌, inl, inr, Bool, true, false, ◌&&◌, Option, none, some,
  List, [], ◌∷◌, map, any, All, ◌==◌, length, arith, Bool-cases, Option-cases,
}
use bevoac_dev.Prelude.Text.{Text, text_eq, text_eq_iff, text_eq_refl, mem_text, to_lower, text}
use bevoac_dev.Api.Errors.{ApiResult, returned, failed, and_then, ApiResult-cases}
use bevoac_dev.Api.Targets.{
  ScopeRow, is_verified, where_scopes, normalize_optional_uuid, normalize_uuids, unique_from,
  unique, is_subscription_scope, Pair, pairs_of, pair_before, insert_pair, order_pairs,
  missing_from, Resolved, lower_pair, resolve_one, resolve_rows,
  resolve_authorized_azure_subscriptions,
}

-- a nullable UUID is the text, in lower case
abbrev lower_is : Option Text → Text → Bool
lower_is none s = false
lower_is (some u) s = text_eq (to_lower u) s

-- a row that lets a customer scan a subscription of a Microsoft tenant
unfoldable pub allows : (tenant_id : ℕ) → Text × Text → ScopeRow → Bool
unfolding text_eq to_lower
allows tenant_id (t, s) r =
    r.tenant_id == tenant_id
    && ((text_eq (to_lower r.microsoft_tenant_id) t && lower_is r.subscription_id s)
        && (r.is_active && is_verified r.status))

module _ (tenant_id : ℕ) (microsoft_tenant_id : Option Text) (requested : List Text) where
  allows-row :
      (r : ScopeRow) (s : Text)
      → is_subscription_scope tenant_id microsoft_tenant_id requested r ≡ true
      → r.subscription_id ≡ some s
      → allows tenant_id (lower_pair (r.microsoft_tenant_id, s)) r ≡ true
  unfolding is_subscription_scope allows lower_pair
  allows-row r s h e =
      ground (arith, text_eq_refl (to_lower r.microsoft_tenant_id), text_eq_refl (to_lower s))

  -- Each pair of the query comes from a row that allows it; `rows` are the last of the `scopes`.
  pairs_of-All :
      (scopes rows : List ScopeRow)
      → ((f : ScopeRow → Bool) → any f rows ≡ true → any f scopes ≡ true)
      → All
          (λ p. any (allows tenant_id (lower_pair p)) scopes ≡ true)
          (pairs_of
            (where_scopes (is_subscription_scope tenant_id microsoft_tenant_id requested) rows))
  unfolding where_scopes pairs_of
  pairs_of-All scopes [] within = tt
  pairs_of-All scopes (r ∷ rows) within =
      let rest = pairs_of-All scopes rows (λ f h. within f (ground (arith, h))) in
      elim (Bool-cases (is_subscription_scope tenant_id microsoft_tenant_id requested r)) [
        | inr n ↦ rw (n, where_scopes) rest
        | inl y ↦ elim (Option-cases r.subscription_id) [
          | inl e ↦ rw (y, where_scopes, e, pairs_of) rest
          | inr (s, e) ↦
              rw (y, where_scopes, e, pairs_of)
                (
                  within (allows tenant_id (lower_pair (r.microsoft_tenant_id, s)))
                      (ground (arith, allows-row r s y e)),
                  rest,
                )
        ]
      ]

List-cases : (l : List Text) → (l ≡ []) ⊎ ((x : Text) × ((xs : List Text) × (l ≡ x ∷ xs)))
List-cases [] = inl refl
List-cases (x ∷ xs) = inr (x, (xs, refl))

module _ (P : Pair → Type 0) where
  insert_pair-All : (p : Pair) (l : List Pair) → P p → All P l → All P (insert_pair p l)
  unfolding insert_pair
  insert_pair-All p [] h t = (h, tt)
  insert_pair-All p (q ∷ l) h t = elim (Bool-cases (pair_before p q)) [
    | inl y ↦ rw (y, insert_pair) (h, t)
    | inr n ↦ rw (n, insert_pair) (t.0, insert_pair-All p l h t.1)
  ]

  order_pairs-All : (l : List Pair) → All P l → All P (order_pairs l)
  unfolding order_pairs
  order_pairs-All [] h = tt
  order_pairs-All (p ∷ l) h = insert_pair-All p (order_pairs l) h.0 (order_pairs-All l h.1)

-- Where nothing new is found, every member has been seen.
unique_from-none : (t : Text) (l : List Text) → unique_from (t ∷ []) l ≡ [] → All (λ x. x ≡ t) l
unfolding unique_from mem_text
unique_from-none t [] h = tt
unique_from-none t (x ∷ l) h = elim (Bool-cases (text_eq x t)) [
  | inl y ↦ ((text_eq_iff x t).0 y, unique_from-none t l (ground arith))
  | inr n ↦ ground arith
]

unique-one : (t : Text) (l : List Text) → unique l ≡ t ∷ [] → All (λ x. x ≡ t) l
unfolding unique unique_from mem_text
unique-one t [] h = tt
unique-one t (x ∷ l) h =
    let same : x ≡ t = cc in
    let rest : unique_from (x ∷ []) l ≡ [] = cc in
    (same, unique_from-none t l (subst (λ y. unique_from (y ∷ []) l ≡ []) same rest))

-- the subscriptions of pairs that are allowed and have one Microsoft tenant
All-subscriptions :
    (tenant_id : ℕ) (scopes : List ScopeRow) (t : Text) (rows : List Pair)
    → All (λ p. any (allows tenant_id (lower_pair p)) scopes ≡ true) rows
    → All (λ x. x ≡ t) (map (λ q. q.0) (map lower_pair rows))
    → All (λ s. any (allows tenant_id (t, s)) scopes ≡ true) (map (λ q. q.1) (map lower_pair rows))
unfolding lower_pair
All-subscriptions tenant_id scopes t [] h e = tt
All-subscriptions tenant_id scopes t ((u, s) ∷ rows) h e = (
  subst (λ x. any (allows tenant_id (x, to_lower s)) scopes ≡ true) e.0 h.0,
  All-subscriptions tenant_id scopes t rows h.1 e.1,
)

abbrev resolved_as : Text → List Text → Resolved
resolved_as t subscriptions = record { microsoft_tenant_id = t; subscriptions = subscriptions }

resolved_or : Resolved → ApiResult Resolved → Resolved
resolved_or r (returned x) = x
resolved_or r (failed e) = r

resolve_rows_sound :
    (tenant_id : ℕ) (scopes : List ScopeRow) (requested : List Text) (rows : List Pair)
    (r : Resolved)
    → resolve_rows requested rows ≡ returned r
    → All (λ p. any (allows tenant_id (lower_pair p)) scopes ≡ true) rows
    → All (λ s. any (allows tenant_id (r.microsoft_tenant_id, s)) scopes ≡ true) r.subscriptions
      × (missing_from r.subscriptions requested ≡ [])
unfolding resolve_rows resolve_one resolved_or
resolve_rows_sound tenant_id scopes requested [] r h all = cc
resolve_rows_sound tenant_id scopes requested (p ∷ rows) r h all =
    let lowered = map lower_pair (p ∷ rows) in
    let subscriptions = map (λ q. q.1) lowered in
    let tenants = map (λ q. q.0) lowered in
    elim (List-cases (missing_from subscriptions requested)) [
      | inr (s, (more, e)) ↦ ground arith
      | inl e ↦ elim (List-cases (unique tenants)) [
        | inl f ↦ ground arith
        | inr (t, (more, f)) ↦ elim (List-cases more) [
          | inr (u, (rest, g)) ↦ ground arith
          | inl g ↦
              let one : unique tenants ≡ t ∷ [] = f ∙ ap (λ l. t ∷ l) g in
              let answer : resolved_as t subscriptions ≡ r =
                ap (resolved_or r)
                  (ap (λ l. resolve_one l subscriptions) (sym one) ∙ (rw (e, resolve_rows) at h)) in
              subst
                (λ x.
                  All (λ s. any (allows tenant_id (x.microsoft_tenant_id, s)) scopes ≡ true)
                    x.subscriptions
                  × (missing_from x.subscriptions requested ≡ []))
                answer
                (All-subscriptions tenant_id scopes t (p ∷ rows) all (unique-one t tenants one), e)
        ]
      ]
    ]

-- The requested UUIDs, as the query compares them.
abbrev pub normalized : List Text → ApiResult (List Text)
normalized ids = normalize_uuids ids (text "azure.subscriptionIds[]")

-- Where a request for subscriptions is granted, each subscription of the answer has an active, verified
-- row of the customer under the Microsoft tenant of the answer, and none of the requested ones is
-- missing.
pub resolve_authorized_azure_subscriptions_sound :
    (scopes : List ScopeRow) (tenant_id : ℕ) (microsoft_tenant_id : Option Text)
    (subscription_ids requested : List Text) (r : Resolved)
    → resolve_authorized_azure_subscriptions scopes tenant_id microsoft_tenant_id subscription_ids
      ≡ returned r
    → normalized subscription_ids ≡ returned requested
    → All (λ s. any (allows tenant_id (r.microsoft_tenant_id, s)) scopes ≡ true) r.subscriptions
      × (missing_from r.subscriptions requested ≡ [])
unfolding resolve_authorized_azure_subscriptions and_then
resolve_authorized_azure_subscriptions_sound scopes tenant_id microsoft_tenant_id ids requested r h
      n =
    elim (ApiResult-cases
      (normalize_optional_uuid microsoft_tenant_id (text "azure.microsoftTenantId"))) [
        | inr (x, e) ↦ ground arith
        | inl (tenant, e) ↦ elim (Bool-cases (length (unique requested) == length requested)) [
          | inr repeated ↦ ground arith
          | inl distinct ↦
              let test = is_subscription_scope tenant_id tenant requested in
              let pairs = pairs_of (where_scopes test scopes) in
              let allowed : All (λ p. any (allows tenant_id (lower_pair p)) scopes ≡ true) pairs =
                pairs_of-All tenant_id tenant requested scopes scopes (λ f g. g) in
              resolve_rows_sound tenant_id scopes requested (order_pairs pairs) r
                (rw (e, n, distinct, resolve_authorized_azure_subscriptions, and_then) at h)
                (order_pairs-All (λ p. any (allows tenant_id (lower_pair p)) scopes ≡ true) pairs
                  allowed)
        ]
      ]
