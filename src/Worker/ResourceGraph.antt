-- ===== src/Worker/ResourceGraph.antt =====
-- lib/resource-graph.js of the worker: a query of Azure Resource Graph, page by page.
pub mod Pages
pub mod Requests
use bevoac_dev.Prelude.{
  ℕ, zero, suc, ◌+◌, ◌-◌, min, Bool, true, false, ◌||◌, ◌&&◌, Option, none, some, List, [], ◌∷◌,
  ◌++◌, map, take, length, ltb, leb, ◌==◌, if◌then◌else◌, get_or,
}
use bevoac_dev.Prelude.Text.{Text, text, text_eq, mem_text, or_null, trim, truthy}
use bevoac_dev.Worker.Errors.{Outcome, ok, raised, Thrown}
use bevoac_dev.Worker.Store.Transaction.{plain_error}

module _ {ℓ} (V : Type ℓ) where
  -- a row as an object
  abbrev pub Row : Type ℓ
  Row = List (Text × V)

-- an array of arrays with the names of its columns
pub record Grid {ℓ} (V : Type ℓ) : Type ℓ where
  pub columns : List Text
  pub cells : List (List V)

-- The forms in which a response may hold its rows: `data` as an array, `data.rows` with `data.columns`,
-- `rows` with `columns`, and `value`; and the six places of the skip token, in the order of the source.
pub record Response {ℓ} (V : Type ℓ) : Type ℓ where
  pub data_rows : Option (List (Row V))
  pub data_grid : Option (Grid V)
  pub grid : Option (Grid V)
  pub value : Option (List (Row V))
  pub tokens : List (Option Text)

-- the first token that is not empty
unfoldable pub first_token : List (Option Text) → Option Text
first_token [] = none
first_token (none ∷ ts) = first_token ts
first_token (some [] ∷ ts) = first_token ts
first_token (some (c ∷ s) ∷ ts) = some (c ∷ s)

module _ {ℓ} {V : Type ℓ} where
  -- `Object.fromEntries(row.map((value, index) => [columns[index], value]))`; a column stands once
  unfoldable pub row_object : List Text → List V → Row V
  row_object columns [] = []
  row_object [] (v ∷ vs) = (text "undefined", v) ∷ row_object [] vs
  row_object (c ∷ columns) (v ∷ vs) = (c, v) ∷ row_object columns vs

  unfoldable pub grid_rows : Grid V → List (Row V)
  unfolding row_object
  grid_rows g = map (row_object g.columns) g.cells

  unfoldable pub normalize_rows : Option (Response V) → List (Row V)
  unfolding grid_rows
  normalize_rows none = []
  normalize_rows (some r) = elim r.data_rows [
    | some rows ↦ rows
    | none ↦ elim r.data_grid [
      | some g ↦ grid_rows g
      | none ↦ elim r.grid [ some g ↦ grid_rows g | none ↦ get_or r.value [] ]
    ]
  ]

  unfoldable pub get_skip_token : Option (Response V) → Option Text
  unfolding first_token
  get_skip_token none = none
  get_skip_token (some r) = first_token r.tokens

-- `boundedInteger`; a value that is no natural number is none
unfoldable pub bounded_integer : Option ℕ → (fallback least most : ℕ) → ℕ
bounded_integer none fallback least most = fallback
bounded_integer (some n) fallback least most = if ltb n least || ltb most n then fallback else n

-- the three options of a query
pub record Paging : Type 0 where
  pub page_size : ℕ
  pub max_rows : ℕ
  pub max_pages : ℕ

-- `resourceGraphDefaults`, from the variables of the environment after `Number`
unfoldable pub resource_graph_defaults : (page_size max_rows max_pages : Option ℕ) → Paging
unfolding bounded_integer
resource_graph_defaults page_size max_rows max_pages = record {
  page_size = bounded_integer page_size 1000 1 1000;
  max_rows = bounded_integer max_rows 100000 1 1000000;
  max_pages = bounded_integer max_pages 250 1 1000;
}

-- the options of a query over the defaults
unfoldable pub paging_of : Paging → (page_size max_rows max_pages : Option ℕ) → Paging
unfolding bounded_integer
paging_of defaults page_size max_rows max_pages = record {
  page_size = bounded_integer page_size defaults.page_size 1 1000;
  max_rows = bounded_integer max_rows defaults.max_rows 1 1000000;
  max_pages = bounded_integer max_pages defaults.max_pages 1 1000;
}

pub data Truncation : Type 0 where
  max_pages_reached max_rows_reached : Truncation

-- `{ rows, metadata }`; `truncated` is the reason's being there
pub record QueryResult {ℓ} (V : Type ℓ) : Type ℓ where
  pub rows : List (Row V)
  pub pages_processed : ℕ
  pub truncation : Option Truncation

-- What the n-th call of the client answers, and whether the signal is aborted before it and after it.
pub record Client {ℓ} (V : Type ℓ) : Type ℓ where
  pub answer : ℕ → Outcome (Option (Response V))
  pub aborted_before : ℕ → Option Thrown
  pub aborted_after : ℕ → Option Thrown

-- a run: its outcome, and `top` and `skipToken` of the requests, in order
pub record QueryRun {ℓ} (V : Type ℓ) : Type ℓ where
  pub outcome : Outcome (QueryResult V)
  pub requests : List (ℕ × Option Text)

abbrev pub repeated_token : Thrown
repeated_token =
    plain_error (some (text "RESOURCE_GRAPH_REPEATED_SKIP_TOKEN"))
      (text "Resource Graph returned a repeated skip token.")

-- nextToken === skipToken
abbrev pub is_token : Option Text → Text → Bool
is_token none t = false
is_token (some s) t = text_eq s t

module _ {ℓ} {V : Type ℓ} (p : Paging) (client : Client V) where
  abbrev pub stop : Outcome (QueryResult V) → QueryRun V
  stop r = record { outcome = r; requests = [] }

  abbrev pub finish : List (Row V) → ℕ → Option Truncation → QueryRun V
  finish rows pages truncation =
      stop (ok (record { rows = rows; pages_processed = pages; truncation = truncation }))

  abbrev pub asked : ℕ × Option Text → QueryRun V → QueryRun V
  asked request r = record { outcome = r.outcome; requests = request ∷ r.requests }

  -- what follows a page: the page is too long, it is the last, its token is repeated, the rows are
  -- enough, or another page is asked for
  unfoldable pub after_page :
      (pages remaining : ℕ)
      → (rows page : List (Row V)) → (seen : List Text) → (skip next : Option Text)
      → (rest : QueryRun V) → QueryRun V
  unfolding mem_text text_eq
  after_page pages remaining rows page seen skip next rest =
      if ltb remaining (length page)
      then finish (rows ++ take remaining page) pages (some max_rows_reached)
      else elim next [
        | none ↦ finish (rows ++ page) pages none
        | some t ↦
            if mem_text t seen || is_token skip t
            then stop (raised repeated_token)
            else if leb p.max_rows (length (rows ++ page))
            then finish (rows ++ page) pages (some max_rows_reached)
            else rest
      ]

  -- The loop with `left` pages left, that is `maxPages - pagesProcessed`.
  unfoldable pub pages_from :
      (left pages : ℕ) → List (Row V) → (seen : List Text) → (skip : Option Text) → QueryRun V
  unfolding normalize_rows get_skip_token after_page
  pages_from zero pages rows seen skip = elim (client.aborted_before pages) [
    | some reason ↦ stop (raised reason)
    | none ↦ finish rows pages (some max_pages_reached)
  ]
  pages_from (suc left) pages rows seen skip =
      let remaining = p.max_rows - length rows in
      elim (client.aborted_before pages) [
        | some reason ↦ stop (raised reason)
        | none ↦
            if remaining == 0
            then finish rows pages (some max_rows_reached)
            else asked (min p.page_size remaining, skip)
                (elim (client.answer pages) [
                  | raised e ↦ stop (raised e)
                  | ok response ↦
                      let page = normalize_rows response in
                      let next = get_skip_token response in
                      let token = get_or next [] in
                      let rest = pages_from left (suc pages) (rows ++ page) (token ∷ seen) next in
                      elim (client.aborted_after pages) [
                        | some reason ↦ stop (raised reason)
                        | none ↦ after_page (suc pages) remaining rows page seen skip next rest
                      ]
                ])
      ]

  -- the loop of `runResourceGraphQueryDetailed`, from `options.skipToken || null`
  unfoldable pub query_pages : (skip : Option Text) → QueryRun V
  unfolding pages_from
  query_pages skip = pages_from p.max_pages 0 [] [] (or_null skip)

-- `[...new Set(subscriptions.filter(Boolean))]` is empty
unfoldable pub no_subscription : List Text → Bool
no_subscription [] = true
no_subscription ([] ∷ ts) = no_subscription ts
no_subscription ((c ∷ s) ∷ ts) = false

-- `runResourceGraphQueryDetailed`, with a credential
unfoldable pub run_resource_graph_query_detailed {ℓ} :
    {V : Type ℓ}
    → Paging
    → Client V
    → (subscriptions : List Text) → (query : Text) → (skip : Option Text) → QueryRun V
unfolding no_subscription trim query_pages
run_resource_graph_query_detailed p client subscriptions query skip =
    if no_subscription subscriptions
    then stop p client (
        raised (plain_error none (text "Resource Graph query requires at least one subscription.")))
    else if truthy (some (trim query))
    then query_pages p client skip
    else stop p client (raised (plain_error none (text "Resource Graph query must not be empty.")))
