-- ===== src/Query.antt =====
-- internal/query/query.go: the validated list query of the pull-request table and its cursor. The
-- query parameters are a function from names to texts, empty where a name is missing. The decoding of
-- JSON and base64, strconv.Atoi and sort.Strings are the record `Library`.
pub mod Cursors
use maintainer_cockpit.Prelude.{
  ℕ, String, Bool, true, false, Option, none, some, List, [], ◌∷◌, ◌++◌, ◌&&◌, ◌||◌, not, ◌==◌, ltb,
  leb, str_eq, Result, ok, err, ◌>>=◌, ◌>>◌, reject, if◌then◌else◌, length, byte_length, trim_space,
  split, join, is_member, same_int, ℤ, pos, negsuc,
}

-- One constructor for each error that Parse and NextCursor return.
pub data QueryError : Type 0 where
  query_too_long order_not_empty order_required order_mismatch too_many_sorts bad_order : QueryError
  unsupported_view unsupported_sort duplicate_sort unsupported_review unsupported_quality :
      String → QueryError
  unsupported_review_load unsupported_analysis_status unsupported_party duplicate_party :
      String → QueryError
  bad_waiting_mode waiting_mode_without_waiting bad_limit cursor_mismatch : QueryError
  cursor_too_large invalid_encoding invalid_cursor unsupported_cursor negative_offset
        encode_cursor :
      QueryError

-- Options
pub record Options : Type 0 where
  pub view : String
  pub query : String
  pub repository : String
  pub review : String
  pub quality : String
  pub review_load : String
  pub analysis_status : String
  pub waiting_on : List String
  pub waiting_mode : String
  pub sort : String
  pub order : String
  pub limit : ℤ
  pub offset : ℤ

-- cursor
pub record Cursor : Type 0 where
  pub version : ℤ
  pub view : String
  pub query : String
  pub repository : String
  pub review : String
  pub quality : String
  pub review_load : String
  pub analysis_status : String
  pub waiting_on : String
  pub waiting_mode : String
  pub sort : String
  pub order : String
  pub limit : ℤ
  pub offset : ℤ

pub record Library : Type 0 where
  pub atoi : String → Option ℤ
  pub sort_strings : List String → List String
  -- base64.RawURLEncoding
  pub encode_bytes : String → String
  pub decode_bytes : String → Option String
  -- json.Marshal, and the strict decoder of the cursor
  pub marshal : Cursor → Option String
  pub unmarshal : String → Option Cursor

abbrev pub Outcome : Type 0 → Type 0
Outcome A = Result QueryError A

abbrev pub allowed_sorts : List String
allowed_sorts =
    "updated" ∷ "number" ∷ "repository" ∷ "title" ∷ "author" ∷ "churn" ∷ "review" ∷ "quality"
    ∷ "review_load" ∷ []

abbrev pub allowed_reviews : List String
allowed_reviews =
    "none" ∷ "review_requested" ∷ "changes_requested" ∷ "approved" ∷ "draft" ∷ "reviewed" ∷ []

abbrev pub allowed_qualities : List String
allowed_qualities = "no_concerns" ∷ "review_suggested" ∷ "strong_concerns" ∷ []

abbrev pub allowed_review_loads : List String
allowed_review_loads = "low" ∷ "medium" ∷ "high" ∷ []

abbrev pub allowed_analysis_statuses : List String
allowed_analysis_statuses =
    "available" ∷ "pending" ∷ "stale" ∷ "partial" ∷ "failed" ∷ "invalid" ∷ []

abbrev pub allowed_waiting_parties : List String
allowed_waiting_parties = "triager" ∷ "maintainer" ∷ "author" ∷ "external_dependency" ∷ []

abbrev is_empty : String → Bool
is_empty s = str_eq s ""

-- A filter is empty or one of the allowed texts.
abbrev check_filter : List String → (String → QueryError) → String → Outcome (Unit {0})
check_filter allowed error value =
    reject (not (is_empty value) && not (is_member value allowed)) (error value)

-- The loop over the sort columns and their orders, of which there are equally many.
unfoldable pub check_sorts : List String → List String → List String → Outcome (Unit {0})
check_sorts seen [] orders = ok tt
check_sorts seen (s ∷ ss) [] = err order_mismatch
check_sorts seen (s ∷ ss) (o ∷ os) = do
  reject (not (is_member s allowed_sorts)) (unsupported_sort s)
  reject (is_member s seen) (duplicate_sort s)
  reject (not (str_eq o "asc") && not (str_eq o "desc")) bad_order
  check_sorts (s ∷ seen) ss os

abbrev only_updated : List String → Bool
only_updated (s ∷ []) = str_eq s "updated"
only_updated _ = false

-- `order` where none is given.
abbrev given_order : List String → String → Outcome String
given_order sorts order =
    if not (is_empty order)
    then ok order
    else if only_updated sorts
    then ok "desc"
    else err order_required

custom_sorting : String → String → Outcome (String × String)
unfolding check_sorts
custom_sorting sort order = do
  let sorts = split b',' sort
  order' ← given_order sorts order
  let orders = split b',' order'
  reject (not (length sorts == length orders)) order_mismatch
  reject (ltb (length allowed_sorts) (length sorts)) too_many_sorts
  check_sorts [] sorts orders
  ok (sort, order')

-- The columns and orders that Parse settles on.
unfoldable pub parse_sorting : String → String → Outcome (String × String)
unfolding custom_sorting
parse_sorting sort order =
    let sort' = if is_empty sort then "updated" else sort in
    if str_eq sort' "none"
    then (do reject (not (is_empty order)) order_not_empty; ok ("", order))
    else custom_sorting sort' order

-- The loop over the parties.
unfoldable pub check_parties : List String → List String → Outcome (Unit {0})
check_parties seen [] = ok tt
check_parties seen (p ∷ ps) = do
  reject (not (is_member p allowed_waiting_parties)) (unsupported_party p)
  reject (is_member p seen) (duplicate_party p)
  check_parties (p ∷ seen) ps

abbrev is_nil : List String → Bool
is_nil [] = true
is_nil (p ∷ ps) = false

abbrev in_limits : ℤ → Bool
in_limits (pos n) = leb 1 n && leb n 100
in_limits (negsuc n) = false

-- `decoded == expected`
unfoldable pub same_cursor : Cursor → Cursor → Bool
same_cursor a b =
    same_int a.version b.version
    && str_eq a.view b.view
    && str_eq a.query b.query
    && str_eq a.repository b.repository
    && str_eq a.review b.review
    && str_eq a.quality b.quality
    && str_eq a.review_load b.review_load
    && str_eq a.analysis_status b.analysis_status
    && str_eq a.waiting_on b.waiting_on
    && str_eq a.waiting_mode b.waiting_mode
    && str_eq a.sort b.sort
    && str_eq a.order b.order
    && same_int a.limit b.limit
    && same_int a.offset b.offset

-- cursorFromOptions
unfoldable pub cursor_from_options : Options → ℤ → Cursor
unfolding join
cursor_from_options o offset = record {
  version = pos 1;
  view = o.view;
  query = o.query;
  repository = o.repository;
  review = o.review;
  quality = o.quality;
  review_load = o.review_load;
  analysis_status = o.analysis_status;
  waiting_on = join "," o.waiting_on;
  waiting_mode = o.waiting_mode;
  sort = o.sort;
  order = o.order;
  limit = o.limit;
  offset = offset;
}

abbrev supported_offset : ℤ → Bool
supported_offset (pos n) = leb n 10_000_000
supported_offset (negsuc n) = false

abbrev from_option {ℓ} : {A : Type ℓ} → QueryError → Option A → Result QueryError A
from_option e none = err e
from_option e (some a) = ok a

module _ (L : Library) where
  -- The parties that Parse settles on.
  unfoldable pub parse_waiting : String → Outcome (List String)
  unfolding check_parties
  parse_waiting raw =
      if is_empty raw
      then ok []
      else (do check_parties [] (split b',' raw); ok (L.sort_strings (split b',' raw)))

  unfoldable pub parse_limit : String → Outcome ℤ
  parse_limit raw =
      if is_empty raw
      then ok (pos 50)
      else (do n ← from_option bad_limit (L.atoi raw); reject (not (in_limits n)) bad_limit; ok n)

  -- Parse up to the cursor.
  unfoldable pub parse_filters : (String → String) → Outcome Options
  unfolding parse_sorting parse_waiting parse_limit
  parse_filters get = do
    let query = trim_space (get "q")
    reject (ltb 200 (byte_length query)) query_too_long
    reject
        (not (is_empty (get "view"))
          && not (str_eq (get "view") "mine")
          && not (str_eq (get "view") "hidden"))
        (unsupported_view (get "view"))
    (sort, order) ← parse_sorting (get "sort") (get "order")
    check_filter allowed_reviews unsupported_review (get "review")
    check_filter allowed_qualities unsupported_quality (get "quality")
    check_filter allowed_review_loads unsupported_review_load (get "review_load")
    check_filter allowed_analysis_statuses unsupported_analysis_status (get "analysis_status")
    waiting ← parse_waiting (get "waiting")
    let mode =
        if not (is_nil waiting) && is_empty (get "waiting_mode") then "any" else get "waiting_mode"
    reject (not (is_empty mode) && not (str_eq mode "any") && not (str_eq mode "all"))
        bad_waiting_mode
    reject (is_nil waiting && not (is_empty (get "waiting_mode"))) waiting_mode_without_waiting
    limit ← parse_limit (get "limit")
    ok (record {
      view = get "view";
      query = query;
      repository = get "repo";
      review = get "review";
      quality = get "quality";
      review_load = get "review_load";
      analysis_status = get "analysis_status";
      waiting_on = waiting;
      waiting_mode = mode;
      sort = sort;
      order = order;
      limit = limit;
      offset = pos 0;
    })

  -- decodeCursor
  unfoldable pub decode_cursor : String → Outcome Cursor
  unfolding byte_length
  decode_cursor raw = do
    reject (ltb 2048 (byte_length raw)) cursor_too_large
    body ← from_option invalid_encoding (L.decode_bytes raw)
    decoded ← from_option invalid_cursor (L.unmarshal body)
    reject (not (same_int decoded.version (pos 1)) || not (supported_offset decoded.offset))
        unsupported_cursor
    ok decoded

  -- The cursor at the end of Parse.
  unfoldable pub apply_cursor : String → Options → Outcome Options
  unfolding decode_cursor cursor_from_options same_cursor
  apply_cursor raw o = if is_empty raw then ok o else (do
    decoded ← decode_cursor raw
    reject (not (same_cursor decoded (cursor_from_options o decoded.offset))) cursor_mismatch
    ok (record o { offset = decoded.offset }))

  -- Parse
  unfoldable pub parse : (String → String) → Outcome Options
  unfolding parse_filters apply_cursor
  parse get = do o ← parse_filters get; apply_cursor (get "cursor") o

  -- NextCursor
  unfoldable pub next_cursor : Options → ℤ → Outcome String
  unfolding cursor_from_options
  next_cursor o (negsuc n) = err negative_offset
  next_cursor o (pos n) = do
    body ← from_option encode_cursor (L.marshal (cursor_from_options o (pos n)))
    ok (L.encode_bytes body)
