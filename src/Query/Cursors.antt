-- ===== src/Query/Cursors.antt =====
-- The cursor of a query is accepted for the same query, at its offset.
use maintainer_cockpit.Prelude.{
  same_int_refl, pos, ℕ, ◌≤◌, String, true, false, some, ltb, leb, str_eq, ok, if◌then◌else◌,
  byte_length, ◌≡◌, refl, arith, Option-cases, inl, inr, eq_refl,
}
use maintainer_cockpit.Query.{
  Options, Cursor, Library, same_cursor, cursor_from_options, decode_cursor, apply_cursor,
  parse_filters, parse, next_cursor,
}

-- The query parameters with a cursor.
abbrev pub with_cursor : String → (String → String) → String → String
with_cursor c get name = if str_eq name "cursor" then c else get name

-- What is relied on: decoding undoes encoding.
pub record Decodes (L : Library) : Type 0 where
  pub bytes : (s : String) → L.decode_bytes (L.encode_bytes s) ≡ some s
  pub json : (c : Cursor) (s : String) → L.marshal c ≡ some s → L.unmarshal s ≡ some c

same_cursor_refl : (c : Cursor) → same_cursor c c ≡ true
unfolding same_cursor
same_cursor_refl c = ground (
  arith,
  same_int_refl c.version,
  same_int_refl c.limit,
  same_int_refl c.offset,
  eq_refl c.view,
  eq_refl c.query,
  eq_refl c.repository,
  eq_refl c.review,
  eq_refl c.quality,
  eq_refl c.review_load,
  eq_refl c.analysis_status,
  eq_refl c.waiting_on,
  eq_refl c.waiting_mode,
  eq_refl c.sort,
  eq_refl c.order,
)

module _ (L : Library) (v : Decodes L) where
  decode_next :
      (o : Options) (n : ℕ) (c : String)
      → n ≤ 10_000_000
      → byte_length c ≤ 2048
      → next_cursor L o (pos n) ≡ ok c
      → decode_cursor L c ≡ ok (cursor_from_options o (pos n))
  unfolding next_cursor decode_cursor
  decode_next o n c small short h =
      elim (Option-cases (L.marshal (cursor_from_options o (pos n)))) [
        | inl e ↦ absurd (ground arith)
        | inr (b, e) ↦
            let whole : c ≡ L.encode_bytes b = ground arith in
            let raw : L.decode_bytes c ≡ some b = rw whole (v.bytes b) in
            let read : L.unmarshal b ≡ some (cursor_from_options o (pos n)) =
              v.json (cursor_from_options o (pos n)) b e in
            let fits : ltb 2048 (byte_length c) ≡ false = ground arith in
            let in_range : leb n 10_000_000 ≡ true = ground arith in
            unfold cursor_from_options in rw (fits, raw, read, in_range)
      ]

  apply_next :
      (o : Options) (n : ℕ) (c : String)
      → next_cursor L o (pos n) ≡ ok c
      → n ≤ 10_000_000
      → byte_length c ≤ 2048
      → str_eq c "" ≡ false
      → apply_cursor L c o ≡ ok (record o { offset = pos n })
  unfolding apply_cursor
  apply_next o n c h small short full =
      let same : same_cursor (cursor_from_options o (pos n)) (cursor_from_options o (pos n))
          ≡ true =
        same_cursor_refl (cursor_from_options o (pos n)) in
      rw (full, decode_next o n c small short h) (unfold cursor_from_options in rw same)

  with_cursor-filters :
      (get : String → String) (c : String)
      → parse_filters L (with_cursor c get) ≡ parse_filters L get
  unfolding parse_filters
  with_cursor-filters get c = refl

  -- A query whose filters are accepted is accepted with the cursor that NextCursor makes of it, and
  -- lists from the cursor's offset, where the offset is at most ten million, the cursor is a text of
  -- 1 to 2048 bytes, and decoding undoes encoding.
  pub parse-next_cursor :
      (get : String → String) (o : Options) (n : ℕ) (c : String)
      → parse_filters L get ≡ ok o
      → next_cursor L o (pos n) ≡ ok c
      → n ≤ 10_000_000
      → byte_length c ≤ 2048
      → str_eq c "" ≡ false
      → parse L (with_cursor c get) ≡ ok (record o { offset = pos n })
  unfolding parse
  parse-next_cursor get o n c accepted h small short full =
      rw (with_cursor-filters get c, accepted) (apply_next o n c h small short full)
