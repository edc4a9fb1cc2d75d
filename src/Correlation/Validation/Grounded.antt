-- ===== src/Correlation/Validation/Grounded.antt =====
-- What an accepted answer is: every group, edge and source in it is backed by what was sent.
use maintainer_cockpit.Prelude.{
  ℕ, suc, ◌≤◌, ◌≡◌, ◌≢◌, refl, sym, ap, subst, ◌∙◌, ◌⊎◌, inl, inr, String, true, false, not, Option,
  some, Option-cases, List, [], ◌∷◌, map, length, count, All, Ascending, Distinct, is_member,
  str_eq, eq_iff, rune_count, ok, arith, ltb, ◌||◌, ◌>>=◌, checked, bound_ok, wrapped_bind,
  wrapped_then, ok-injective, ||-false, not-false, not_ltb, fresh_keys,
}
use maintainer_cockpit.Correlation.{Member, Evidence, Edge, Group}
use maintainer_cockpit.Correlation.Texts.{
  normalize_text, sorted_unique, All-sorted_unique, this_text,
}
use maintainer_cockpit.Correlation.Known.{Known}
use maintainer_cockpit.Correlation.Validation.{
  invalid_type, invalid_edge_confidence, invalid_reason, self_referential, unknown_from, unknown_to,
  edge_evidence, edge_error, duplicate_edge, EdgeError, GroupError, valid_confidence, edge_types,
  evidence_items, validate_evidence, edge_key, check_edge, check_edges, find_members, is_open,
  member_key,
}

-- A known source that one of the identities supplied or that is about one of them.
unfoldable pub IsCited : (String → Option Evidence) → List String → String → Type 0
IsCited known relevant id =
    (e : Evidence) × (known id ≡ some e)
    × ((is_member e.owner relevant ≡ true) ⊎ (is_member e.entity_id relevant ≡ true))

unfoldable pub IsGroundedEdge : (String → Option Evidence) → List String → Edge → Type 0
IsGroundedEdge known members e =
    (is_member e.type edge_types ≡ true)
    × (valid_confidence e.confidence ≡ true)
    × (str_eq e.reason "" ≡ false)
    × (rune_count e.reason ≤ 500)
    × (e.from ≢ e.to)
    × (is_member e.from members ≡ true)
    × (is_member e.to members ≡ true)
    × All (IsCited known (e.from ∷ e.to ∷ [])) e.source_ids

unfoldable pub IsGrounded : Known → Group → Type 0
IsGrounded known g =
    let ids : List String = map member_key g.members in
    (2 ≤ length g.members)
    × (length g.members ≤ 50)
    × Ascending member_key g.members
    × All (λ m. known.members m.source_id ≡ some m) g.members
    × (1 ≤ count is_open g.members)
    × All (IsCited known.evidence ids) g.source_ids
    × (length g.edges ≤ 200)
    × Ascending edge_key g.edges
    × All (IsGroundedEdge known.evidence ids) g.edges

evidence_items-IsCited :
    (known : String → Option Evidence) (relevant seen ids : List String)
    → evidence_items known relevant seen ids ≡ ok tt
    → All (IsCited known relevant) ids
unfolding evidence_items IsCited
evidence_items-IsCited known relevant seen [] h = tt
evidence_items-IsCited known relevant seen (id ∷ ids) h = elim (Option-cases (known id)) [
  | inl k ↦ ground arith
  | inr (e, k) ↦
      ((e, k, ground arith), evidence_items-IsCited known relevant (id ∷ seen) ids (ground arith))
]

pub validate_evidence-IsCited :
    (known : String → Option Evidence) (relevant ids : List String)
    → validate_evidence ids known relevant ≡ ok tt
    → All (IsCited known relevant) (sorted_unique ids)
unfolding validate_evidence
validate_evidence-IsCited known relevant ids h =
    All-sorted_unique (IsCited known relevant) ids
      (evidence_items-IsCited known relevant [] ids (ground arith))

check_edge-IsGroundedEdge :
    (known : String → Option Evidence) (members : List String) (e e' : Edge)
    → check_edge known members e ≡ ok e'
    → IsGroundedEdge known members e' × (edge_key e' ≡ edge_key e)
unfolding check_edge IsGroundedEdge edge_key
check_edge-IsGroundedEdge known members e e' h =
    let reason : String = normalize_text e.reason in
    let (n1, h1) = checked (not (is_member e.type edge_types)) (invalid_type e.type) _ e' h in
    let (n2, h2) = checked (not (valid_confidence e.confidence)) invalid_edge_confidence _ e' h1 in
    let (n3, h3) =
      checked (str_eq reason "" || ltb 500 (rune_count reason)) invalid_reason _ e' h2 in
    let (n4, h4) = checked (str_eq e.from e.to) self_referential _ e' h3 in
    let (n5, h5) = checked (not (is_member e.from members)) unknown_from _ e' h4 in
    let (n6, h6) = checked (not (is_member e.to members)) unknown_to _ e' h5 in
    let (u, n7, h7) =
      wrapped_then edge_evidence (validate_evidence e.source_ids known (e.from ∷ e.to ∷ [])) _ e'
        h6 in
    let (r1, r2) = ||-false (str_eq reason "") (ltb 500 (rune_count reason)) n3 in
    subst (λ x. IsGroundedEdge known members x × (edge_key x ≡ edge_key e))
      (ok-injective {E = EdgeError} _ e' h7)
      (
        (
          not-false (is_member e.type edge_types) n1,
          not-false (valid_confidence e.confidence) n2,
          r1,
          not_ltb 500 (rune_count reason) r2,
          λ p. ground (arith, eq_iff e.from e.to),
          not-false (is_member e.from members) n5,
          not-false (is_member e.to members) n6,
          validate_evidence-IsCited known (e.from ∷ e.to ∷ []) e.source_ids n7,
        ),
        refl,
      )

-- The keys of accepted edges are different from each other and from those seen before.
pub check_edges-IsGroundedEdge :
    (known : String → Option Evidence) (members : List String) (i : ℕ) (seen : List String)
    (es es' : List Edge)
    → check_edges known members i seen es ≡ ok es'
    → All (IsGroundedEdge known members) es'
      × Distinct edge_key es'
      × All (λ e. is_member (edge_key e) seen ≡ false) es'
      × (length es' ≡ length es)
unfolding check_edges Distinct
check_edges-IsGroundedEdge known members i seen [] es' h =
    subst
      (λ es.
        All (IsGroundedEdge known members) es
        × Distinct edge_key es
        × All (λ e. is_member (edge_key e) seen ≡ false) es
        × (length es ≡ 0))
      (ok-injective {E = GroupError} [] es' h) (tt, tt, tt, refl)
check_edges-IsGroundedEdge known members i seen (e ∷ es) es' h =
    let (e1, k1, h1) = wrapped_bind (edge_error i) (check_edge known members e) _ es' h in
    let (n2, h2) = checked (is_member (edge_key e) seen) duplicate_edge _ es' h1 in
    let (rest, k3, h3) =
      bound_ok (check_edges known members (suc i) (edge_key e ∷ seen) es) _ es' h2 in
    let (good, apart, fresh, len) =
      check_edges-IsGroundedEdge known members (suc i) (edge_key e ∷ seen) es rest k3 in
    let (differ, unseen) = fresh_keys edge_key (edge_key e) seen rest fresh in
    let (fine, same) = check_edge-IsGroundedEdge known members e e1 k1 in
    subst
      (λ xs.
        All (IsGroundedEdge known members) xs
        × Distinct edge_key xs
        × All (λ e. is_member (edge_key e) seen ≡ false) xs
        × (length xs ≡ suc (length es)))
      (ok-injective {E = GroupError} (e1 ∷ rest) es' h3)
      (
        (fine, good),
        (subst (λ k. All (λ x. k ≢ edge_key x) rest) (sym same) differ, apart),
        (subst (λ k. is_member k seen ≡ false) (sym same) n2, unseen),
        ap (λ n. suc n) len,
      )

pub find_members-found :
    (known : String → Option Member) (ids : List String) (ms : List Member)
    → ((id : String) (m : Member) → known id ≡ some m → m.source_id ≡ id)
    → find_members known ids ≡ ok ms
    → (map member_key ms ≡ ids) × All (λ m. known m.source_id ≡ some m) ms
unfolding find_members
find_members-found known [] ms keyed h =
    subst (λ xs. (map member_key xs ≡ []) × All (λ m. known m.source_id ≡ some m) xs)
      (ok-injective {E = GroupError} [] ms h) (refl, tt)
find_members-found known (id ∷ ids) ms keyed h = elim (Option-cases (known id)) [
  | inl k ↦ ground arith
  | inr (m, k) ↦
      let chain : (find_members known ids >>= (λ rest. ok (m ∷ rest))) ≡ ok ms = ground arith in
      let (rest, k1, h1) = bound_ok (find_members known ids) _ ms chain in
      let (same, found) = find_members-found known ids rest keyed k1 in
      let own : m.source_id ≡ id = keyed id m k in
      subst (λ xs. (map member_key xs ≡ id ∷ ids) × All (λ m. known m.source_id ≡ some m) xs)
        (ok-injective {E = GroupError} (m ∷ rest) ms h1)
        (
          ap (λ x. x ∷ map member_key rest) own ∙ ap (λ xs. id ∷ xs) same,
          (subst (λ x. known x ≡ some m) (sym own) k, found),
        )
]

map-All :
    (P : String → Type 0) (ms : List Member)
    → All P (map member_key ms)
    → All (λ m. P m.source_id) ms
map-All P [] h = tt
map-All P (m ∷ ms) h = (h.0, map-All P ms h.1)

-- Keys that are ascending texts.
pub map-Ascending :
    (ms : List Member) → Ascending this_text (map member_key ms) → Ascending member_key ms
unfolding Ascending
map-Ascending [] h = tt
map-Ascending (m ∷ ms) h = (map-All _ ms h.0, map-Ascending ms h.1)
