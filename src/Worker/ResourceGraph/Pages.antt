-- ===== src/Worker/ResourceGraph/Pages.antt =====
-- What a query that is read page by page returns.
use bevoac_dev.Prelude.{
  ℕ, zero, suc, ◌+◌, ◌-◌, ◌≤◌, ◌≡◌, refl, sym, ap, ◌∙◌, subst, ◌⊎◌, inl, inr, ◌||◌, Option, none,
  some, List, [], ◌∷◌, ◌++◌, take, length, length-append, ltb, leb, ◌==◌, get_or, arith, Bool-cases,
  Option-cases,
}
use bevoac_dev.Prelude.Text.{Text, mem_text, or_null}
use bevoac_dev.Worker.Errors.{Outcome, ok, raised, Thrown}
use bevoac_dev.Worker.ResourceGraph.{
  Row, Response, normalize_rows, get_skip_token, Paging, QueryResult, Truncation, max_pages_reached,
  max_rows_reached, finish, Client, QueryRun, is_token, after_page, pages_from, query_pages,
}

module _ {ℓ} {A : Type ℓ} where
  take-all : (n : ℕ) (xs : List A) → length xs ≤ n → take n xs ≡ xs
  take-all zero [] h = refl
  take-all zero (x ∷ xs) h = absurd (omega arith)
  take-all (suc n) [] h = refl
  take-all (suc n) (x ∷ xs) h = ap (λ l. x ∷ l) (take-all n xs (omega arith))

  take-append : (n m : ℕ) (xs ys : List A) → length xs + m ≡ n → take n (xs ++ ys) ≡ xs ++ take m ys
  take-append n m [] ys h = ap (λ k. take k ys) (omega arith)
  take-append zero m (x ∷ xs) ys h = absurd (omega arith)
  take-append (suc n) m (x ∷ xs) ys h = ap (λ l. x ∷ l) (take-append n m xs ys (omega arith))

pub Outcome-cases {ℓ} :
    {A : Type ℓ} (o : Outcome A) → ((a : A) × (o ≡ ok a)) ⊎ ((e : Thrown) × (o ≡ raised e))
Outcome-cases (ok a) = inl (a, refl)
Outcome-cases (raised e) = inr (e, refl)

module _ {ℓ} {V : Type ℓ} (p : Paging) (client : Client V) where
  rows_of : Outcome (Option (Response V)) → List (Row V)
  rows_of (ok response) = normalize_rows response
  rows_of (raised e) = []

  -- the rows of the first n answers, one after the other
  unfoldable pub received : ℕ → List (Row V)
  unfolding rows_of
  received zero = []
  received (suc n) = received n ++ rows_of (client.answer n)

  -- A result holds the first rows of the pages that were read, as many as are allowed.
  abbrev Faithful : ℕ → QueryResult V → Type ℓ
  Faithful most r =
      (r.rows ≡ take p.max_rows (received r.pages_processed)) × (r.pages_processed ≤ most)

  result_or : QueryResult V → Outcome (QueryResult V) → QueryResult V
  result_or r (ok x) = x
  result_or r (raised e) = r

  finished :
      (rows : List (Row V)) (pages most : ℕ) (truncation : Option Truncation) (r : QueryResult V)
      → rows ≡ take p.max_rows (received pages)
      → pages ≤ most
      → (finish p client rows pages truncation).outcome ≡ ok r
      → Faithful most r
  unfolding result_or
  finished rows pages most truncation r same few h =
      subst (Faithful most) (ap (result_or r) h) (same, few)

  after_page-Faithful :
      (pages remaining most : ℕ) (rows page : List (Row V)) (seen : List Text)
      (skip next : Option Text) (rest : QueryRun V) (r : QueryResult V)
      → rows ++ page ≡ received pages
      → length rows + remaining ≡ p.max_rows
      → pages ≤ most
      → (length (rows ++ page) ≤ p.max_rows → rest.outcome ≡ ok r → Faithful most r)
      → (after_page p client pages remaining rows page seen skip next rest).outcome ≡ ok r
      → Faithful most r
  unfolding after_page
  after_page-Faithful pages remaining most rows page seen skip next rest r same room few later h =
      elim (Bool-cases (ltb remaining (length page))) [
        | inl long ↦
            finished (rows ++ take remaining page) pages most (some max_rows_reached) r
              (sym (take-append p.max_rows remaining rows page room) ∙ ap (take p.max_rows) same)
              few (rw (long, after_page) at h)
        | inr short ↦
            let bound : length (rows ++ page) ≤ p.max_rows =
              ground (arith, length-append rows page) in
            let whole : rows ++ page ≡ take p.max_rows (received pages) =
              sym (take-all p.max_rows (rows ++ page) bound) ∙ ap (take p.max_rows) same in
            elim (Option-cases next) [
              | inl e ↦
                  finished (rows ++ page) pages most none r whole few
                    (rw (short, after_page, e) at h)
              | inr (t, e) ↦ elim (Bool-cases (mem_text t seen || is_token skip t)) [
                | inl again ↦ ground arith
                | inr new ↦ elim (Bool-cases (leb p.max_rows (length (rows ++ page)))) [
                  | inl full ↦
                      finished (rows ++ page) pages most (some max_rows_reached) r whole few
                        (rw (short, after_page, e, new, full) at h)
                  | inr room_left ↦ later bound (rw (short, after_page, e, new, room_left) at h)
                ]
              ]
            ]
      ]

  pages_from-Faithful :
      (left pages : ℕ) (rows : List (Row V)) (seen : List Text) (skip : Option Text)
      (r : QueryResult V)
      → rows ≡ received pages
      → length rows ≤ p.max_rows
      → (pages_from p client left pages rows seen skip).outcome ≡ ok r
      → Faithful (pages + left) r
  unfolding pages_from received rows_of
  pages_from-Faithful zero pages rows seen skip r same few h =
      elim (Option-cases (client.aborted_before pages)) [
        | inr (x, e) ↦ ground arith
        | inl e ↦
            finished rows pages (pages + 0) (some max_pages_reached) r
              (sym (take-all p.max_rows rows few) ∙ ap (take p.max_rows) same) (omega arith)
              (rw (e, pages_from) at h)
      ]
  pages_from-Faithful (suc left) pages rows seen skip r same few h =
      elim (Option-cases (client.aborted_before pages)) [
        | inr (x, e) ↦ ground arith
        | inl e ↦ elim (Bool-cases ((p.max_rows - length rows) == 0)) [
          | inl full ↦
              finished rows pages (pages + suc left) (some max_rows_reached) r
                (sym (take-all p.max_rows rows few) ∙ ap (take p.max_rows) same) (omega arith)
                (rw (e, pages_from, full) at h)
          | inr room ↦ elim (Outcome-cases (client.answer pages)) [
            | inr (x, f) ↦ ground arith
            | inl (response, f) ↦ elim (Option-cases (client.aborted_after pages)) [
              | inr (x, g) ↦ ground arith
              | inl g ↦
                  let page = normalize_rows response in
                  let next = get_skip_token response in
                  let together : rows ++ page ≡ received (suc pages) =
                    ap (λ l. l ++ page) same ∙ ap (λ o. received pages ++ rows_of o) (sym f) in
                  after_page-Faithful (suc pages) (p.max_rows - length rows) (pages + suc left) rows
                    page seen skip next
                    (pages_from p client left (suc pages) (rows ++ page) (get_or next [] ∷ seen)
                      next)
                    r together (omega arith) (omega arith)
                    (λ bound later.
                      subst (λ n. Faithful n r) (omega arith)
                        (pages_from-Faithful left (suc pages) (rows ++ page) (get_or next [] ∷ seen)
                          next r together bound later))
                    (rw (e, pages_from, room, f, g) at h)
            ]
          ]
        ]
      ]

  -- A query that returns has read at most `maxPages` pages, and returns the rows of their answers in
  -- order, the first `maxRows` of them.
  pub query_pages-received :
      (skip : Option Text) (r : QueryResult V)
      → (query_pages p client skip).outcome ≡ ok r
      → (r.rows ≡ take p.max_rows (received r.pages_processed)) × (r.pages_processed ≤ p.max_pages)
  unfolding query_pages received
  query_pages-received skip r h =
      subst (λ n. Faithful n r) (omega arith)
        (pages_from-Faithful p.max_pages 0 [] [] (or_null skip) r refl (omega arith) h)
