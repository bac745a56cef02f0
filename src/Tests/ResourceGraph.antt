-- ===== src/Tests/ResourceGraph.antt =====
-- A query of two pages of two rows, of which three rows are allowed.
use bevoac_dev.Prelude.{
  ℕ, ◌≤◌, ◌≡◌, refl, none, some, [], ◌∷◌, ◌==◌, if◌then◌else◌, take, length, All, arith,
}
use bevoac_dev.Prelude.Text.{text, text_eq, mem_text}
use bevoac_dev.Worker.Errors.{ok}
use bevoac_dev.Worker.ResourceGraph.{
  Row, Response, first_token, normalize_rows, get_skip_token, Paging, QueryResult, max_rows_reached,
  Client, after_page, pages_from, query_pages,
}
use bevoac_dev.Worker.ResourceGraph.Pages.{received, query_pages-received}
use bevoac_dev.Worker.ResourceGraph.Requests.{query_pages-requests}

abbrev cell : ℕ → Row ℕ
cell n = (text "id", n) ∷ []

abbrev paging : Paging
paging = record { page_size = 2; max_rows = 3; max_pages = 5 }

abbrev page : ℕ → Response ℕ
page n = record {
  data_rows = some (if n == 0 then cell 10 ∷ (cell 11 ∷ []) else cell 12 ∷ (cell 13 ∷ []));
  data_grid = none;
  grid = none;
  value = none;
  tokens = some (if n == 0 then text "t1" else text "t2") ∷ [];
}

abbrev client : Client ℕ
client = record {
  answer = λ n. ok (some (page n));
  aborted_before = λ n. none;
  aborted_after = λ n. none;
}

abbrev result : QueryResult ℕ
result = record {
  rows = cell 10 ∷ (cell 11 ∷ (cell 12 ∷ []));
  pages_processed = 2;
  truncation = some max_rows_reached;
}

query_pages-received_example : (result.rows ≡ take 3 (received paging client 2)) × (2 ≤ 5)
unfolding query_pages pages_from normalize_rows get_skip_token first_token after_page mem_text
    text_eq
query_pages-received_example = query_pages-received paging client none result refl

query_pages-requests_example :
    (length (query_pages paging client none).requests ≤ 5)
    × All (λ q. (1 ≤ q.0) × (q.0 ≤ 2)) (query_pages paging client none).requests
query_pages-requests_example = query_pages-requests paging client (omega arith) none
