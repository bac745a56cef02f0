-- ===== src/Worker/ResourceGraph/Requests.antt =====
-- The requests of a query that is read page by page.
use bevoac_dev.Prelude.{
  ℕ, zero, suc, ◌-◌, ◌≤◌, min, inl, inr, ◌||◌, Option, List, [], ◌∷◌, ◌++◌, length, ltb, leb, ◌==◌,
  get_or, All, arith, Bool-cases, Option-cases,
}
use bevoac_dev.Prelude.Text.{Text, mem_text, or_null}
use bevoac_dev.Worker.ResourceGraph.{
  Row, normalize_rows, get_skip_token, Paging, Client, QueryRun, is_token, after_page, pages_from,
  query_pages,
}
use bevoac_dev.Worker.ResourceGraph.Pages.{Outcome-cases}

module _ {ℓ} {V : Type ℓ} (p : Paging) (client : Client V) (sized : 1 ≤ p.page_size) where
  -- a request for at least one row, and at most a page
  abbrev Sized : ℕ × Option Text → Type 0
  Sized q = (1 ≤ q.0) × (q.0 ≤ p.page_size)

  abbrev Few : ℕ → QueryRun V → Type 0
  Few left r = (length r.requests ≤ left) × All Sized r.requests

  after_page-Few :
      (left pages remaining : ℕ) (rows page : List (Row V)) (seen : List Text)
      (skip next : Option Text) (rest : QueryRun V)
      → Few left rest
      → Few left (after_page p client pages remaining rows page seen skip next rest)
  unfolding after_page
  after_page-Few left pages remaining rows page seen skip next rest few =
      elim (Bool-cases (ltb remaining (length page))) [
        | inl long ↦ rw (long, after_page) (omega arith, tt)
        | inr short ↦ elim (Option-cases next) [
          | inl e ↦ rw (short, after_page, e) (omega arith, tt)
          | inr (t, e) ↦ elim (Bool-cases (mem_text t seen || is_token skip t)) [
            | inl again ↦ rw (short, after_page, e, again) (omega arith, tt)
            | inr new ↦ elim (Bool-cases (leb p.max_rows (length (rows ++ page)))) [
              | inl full ↦ rw (short, after_page, e, new, full) (omega arith, tt)
              | inr room_left ↦ rw (short, after_page, e, new, room_left) few
            ]
          ]
        ]
      ]

  pages_from-Few :
      (left pages : ℕ) (rows : List (Row V)) (seen : List Text) (skip : Option Text)
      → Few left (pages_from p client left pages rows seen skip)
  unfolding pages_from
  pages_from-Few zero pages rows seen skip = elim (Option-cases (client.aborted_before pages)) [
    | inr (x, e) ↦ rw (e, pages_from) (omega arith, tt)
    | inl e ↦ rw (e, pages_from) (omega arith, tt)
  ]
  pages_from-Few (suc left) pages rows seen skip =
      let remaining = p.max_rows - length rows in
      elim (Option-cases (client.aborted_before pages)) [
        | inr (x, e) ↦ rw (e, pages_from) (omega arith, tt)
        | inl e ↦ elim (Bool-cases (remaining == 0)) [
          | inl full ↦ rw (e, pages_from, full) (omega arith, tt)
          | inr room ↦
              let top : Sized (min p.page_size remaining, skip) = (ground arith, omega arith) in
              elim (Outcome-cases (client.answer pages)) [
                | inr (x, f) ↦ rw (e, pages_from, room, f) (omega arith, (top, tt))
                | inl (response, f) ↦ elim (Option-cases (client.aborted_after pages)) [
                  | inr (x, g) ↦ rw (e, pages_from, room, f, g) (omega arith, (top, tt))
                  | inl g ↦
                      let page = normalize_rows response in
                      let next = get_skip_token response in
                      let (few, sizes) =
                        after_page-Few left (suc pages) remaining rows page seen skip next
                          (pages_from p client left (suc pages) (rows ++ page)
                            (get_or next [] ∷ seen) next)
                          (pages_from-Few left (suc pages) (rows ++ page) (get_or next [] ∷ seen)
                            next) in
                      rw (e, pages_from, room, f, g) (omega (arith, few), (top, sizes))
                ]
              ]
        ]
      ]

  -- Whatever the client answers, a query ends after at most `maxPages` requests, each of which asks for
  -- at least one row and for at most a page, where a page has a row.
  pub query_pages-requests :
      (skip : Option Text)
      → (length (query_pages p client skip).requests ≤ p.max_pages)
        × All (λ q. (1 ≤ q.0) × (q.0 ≤ p.page_size)) (query_pages p client skip).requests
  unfolding query_pages
  query_pages-requests skip = pages_from-Few p.max_pages 0 [] [] (or_null skip)
