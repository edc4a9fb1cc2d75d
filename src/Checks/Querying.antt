-- ===== src/Checks/Querying.antt =====
-- The second page of a query for pull requests that wait on their maintainers.
use maintainer_cockpit.Prelude.{
  same_int, ℤ, pos, negsuc, String, true, none, some, [], ◌∷◌, str_eq, ok, if◌then◌else◌,
  byte_length, trim_space, split, ◌≡◌, refl, arith, eq_iff, Bool-cases, inl, inr, ap,
}
use maintainer_cockpit.Query.{
  Options, Cursor, Library, same_cursor, cursor_from_options, parse_filters, parse, next_cursor,
}
use maintainer_cockpit.Query.Cursors.{with_cursor, Decodes, parse-next_cursor}

same_int-eq : (m n : ℤ) → same_int m n ≡ true → m ≡ n
same_int-eq (pos m) (pos n) h = ap pos (ground arith)
same_int-eq (negsuc m) (negsuc n) h = ap negsuc (ground arith)
same_int-eq (pos m) (negsuc n) h = cc
same_int-eq (negsuc m) (pos n) h = cc

same_cursor-eq : (a b : Cursor) → same_cursor a b ≡ true → a ≡ b
unfolding same_cursor
same_cursor-eq a b h = ground (
  arith,
  same_int-eq a.version b.version,
  same_int-eq a.limit b.limit,
  same_int-eq a.offset b.offset,
  eq_iff a.view b.view,
  eq_iff a.query b.query,
  eq_iff a.repository b.repository,
  eq_iff a.review b.review,
  eq_iff a.quality b.quality,
  eq_iff a.review_load b.review_load,
  eq_iff a.analysis_status b.analysis_status,
  eq_iff a.waiting_on b.waiting_on,
  eq_iff a.waiting_mode b.waiting_mode,
  eq_iff a.sort b.sort,
  eq_iff a.order b.order,
)

abbrev request : String → String
request name = if str_eq name "waiting" then "maintainer" else ""

abbrev options : Options
options = record {
  view = "";
  query = "";
  repository = "";
  review = "";
  quality = "";
  review_load = "";
  analysis_status = "";
  waiting_on = "maintainer" ∷ [];
  waiting_mode = "any";
  sort = "updated";
  order = "desc";
  limit = pos 50;
  offset = pos 0;
}

abbrev second_page : Cursor
second_page = cursor_from_options options (pos 50)

-- A library that encodes this one cursor.
abbrev library : Library
library = record {
  atoi = λ s. none;
  sort_strings = λ ss. ss;
  encode_bytes = λ s. s;
  decode_bytes = λ s. some s;
  marshal = λ c. if same_cursor c second_page then some "page" else none;
  unmarshal = λ s. some second_page;
}

library-Decodes : Decodes library
library-Decodes = record {
  bytes = λ s. refl;
  json = λ c s h. elim (Bool-cases (same_cursor c second_page)) [
    | inl same ↦ let equal : c ≡ second_page = same_cursor-eq c second_page same in ground arith
    | inr other ↦ absurd (ground arith)
  ];
}

accepted : parse_filters library request ≡ ok options
unfolding parse_filters byte_length trim_space split
accepted = refl

page : next_cursor library options (pos 50) ≡ ok "page"
unfolding next_cursor same_cursor
page = refl

short_page : byte_length "page" ≡ 4
unfolding byte_length
short_page = refl

parse-next_cursor_example :
    parse library (with_cursor "page" request) ≡ ok (record options { offset = pos 50 })
parse-next_cursor_example =
    parse-next_cursor library library-Decodes request options 50 "page" accepted page (omega arith)
      (omega (arith, short_page)) refl
