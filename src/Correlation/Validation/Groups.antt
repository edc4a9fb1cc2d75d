-- ===== src/Correlation/Validation/Groups.antt =====
-- Accepted groups and answers.
use maintainer_cockpit.Prelude.{
  length-map, ℕ, suc, ◌≤◌, ◌≡◌, refl, sym, ap, subst, ◌∙◌, inl, inr, String, false, not, Any,
  Option, some, Option-cases, List, [], ◌∷◌, map, length, count, All, All-sort_by, Ascending,
  Distinct, sort_by, sort_by-Ascending, length-sort_by, is_member, str_eq, All-weaken, rune_count,
  ok, arith, ltb, ◌||◌, ◌==◌, ◌>>◌, ◌>>=◌, checked, bound_ok, wrapped_bind, wrapped_then,
  ok-injective, ||-false, not_ltb, fresh_keys, sort_by_unchanged, reject,
}
use maintainer_cockpit.Correlation.{Member, Group, Request}
use maintainer_cockpit.Correlation.Texts.{
  normalize_text, sorted_unique, sorted_unique-Ascending, this_text,
}
use maintainer_cockpit.Correlation.Known.{Known, known_sources, ComesFrom, known_sources-ComesFrom}
use maintainer_cockpit.Correlation.Validation.{
  Candidate, GroupError, ResponseError, valid_confidence, validate_evidence, edge_key, check_edges,
  find_members, is_open, member_key, group_key, check_group, check_groups, validate_response,
  invalid_name, invalid_description, invalid_confidence, member_count, duplicate_members,
  no_open_pull_requests, group_evidence, too_many_edges, group_error, duplicate_group,
  too_many_groups,
}
use maintainer_cockpit.Correlation.Validation.Grounded.{
  IsCited, IsGroundedEdge, IsGrounded, validate_evidence-IsCited, check_edges-IsGroundedEdge,
  find_members-found, map-Ascending,
}

-- Every known member is known under its own identity.
abbrev pub Keyed : Known → Type 0
Keyed known = (id : String) (m : Member) → known.members id ≡ some m → m.source_id ≡ id

module _ (digest : String → String) (known : Known) (keyed : Keyed known) where
  check_group-IsGrounded :
      (c : Candidate) (g : Group) → check_group digest known c ≡ ok g → IsGrounded known g
  unfolding check_group IsGrounded
  check_group-IsGrounded c g h =
      let name : String = normalize_text c.name in
      let text : String = normalize_text c.description in
      let ids : List String = sorted_unique c.members in
      let (n1, h1) = checked (str_eq name "" || ltb 120 (rune_count name)) invalid_name _ g h in
      let (n2, h2) =
        checked (str_eq text "" || ltb 500 (rune_count text)) invalid_description _ g h1 in
      let (n3, h3) = checked (not (valid_confidence c.confidence)) invalid_confidence _ g h2 in
      let (n4, h4) =
        checked (ltb (length c.members) 2 || ltb 50 (length c.members)) member_count _ g h3 in
      let (n5, h5) = checked (not (length ids == length c.members)) duplicate_members _ g h4 in
      let (ms, k6, h6) = bound_ok (find_members known.members ids) _ g h5 in
      let (n7, h7) = checked (count is_open ms == 0) no_open_pull_requests _ g h6 in
      let (u, k8, h8) =
        wrapped_then group_evidence (validate_evidence c.source_ids known.evidence ids) _ g h7 in
      let (n9, h9) = checked (ltb 200 (length c.edges)) too_many_edges _ g h8 in
      let (es, k10, h10) = bound_ok (check_edges known.evidence ids 0 [] c.edges) _ g h9 in
      let (same, found) = find_members-found known.members ids ms keyed k6 in
      let (good, apart, fresh, len) =
        check_edges-IsGroundedEdge known.evidence ids 0 [] c.edges es k10 in
      let rising : Ascending member_key ms =
        map-Ascending ms
          (subst (Ascending this_text) (sym same) (sorted_unique-Ascending c.members)) in
      let fixed : ms ≡ sort_by member_key ms = sym (sort_by_unchanged member_key ms rising) in
      let many : length ms ≡ length c.members =
        sym (length-map member_key ms) ∙ ap length same ∙ ground arith in
      let (below, above) = ||-false (ltb (length c.members) 2) (ltb 50 (length c.members)) n4 in
      let low : 2 ≤ length c.members = not_ltb (length c.members) 2 below in
      let high : length c.members ≤ 50 = not_ltb 50 (length c.members) above in
      subst (IsGrounded known) (ok-injective {E = GroupError} _ g h10) (
        subst
          (λ xs.
            (2 ≤ length xs)
            × (length xs ≤ 50)
            × Ascending member_key xs
            × All (λ m. known.members m.source_id ≡ some m) xs
            × (1 ≤ count is_open xs)
            × All (IsCited known.evidence (map member_key xs)) (sorted_unique c.source_ids)
            × (length (sort_by edge_key es) ≤ 200)
            × Ascending edge_key (sort_by edge_key es)
            × All (IsGroundedEdge known.evidence (map member_key xs)) (sort_by edge_key es))
          fixed
          (
            omega (arith, many, low),
            omega (arith, many, high),
            rising,
            found,
            ground arith,
            subst (λ xs. All (IsCited known.evidence xs) (sorted_unique c.source_ids)) (sym same)
                (validate_evidence-IsCited known.evidence ids c.source_ids k8),
            omega (arith, length-sort_by edge_key es, len, not_ltb 200 (length c.edges) n9),
            sort_by-Ascending edge_key es apart,
            subst (λ xs. All (IsGroundedEdge known.evidence xs) (sort_by edge_key es)) (sym same)
                (All-sort_by edge_key _ es good),
          ))

  check_groups-IsGrounded :
      (i : ℕ) (seen : List String) (cs : List Candidate) (gs : List Group)
      → check_groups digest known i seen cs ≡ ok gs
      → All (IsGrounded known) gs
        × Distinct group_key gs
        × All (λ g. is_member (group_key g) seen ≡ false) gs
        × (length gs ≡ length cs)
  unfolding check_groups Distinct
  check_groups-IsGrounded i seen [] gs h =
      subst
        (λ xs.
          All (IsGrounded known) xs
          × Distinct group_key xs
          × All (λ g. is_member (group_key g) seen ≡ false) xs
          × (length xs ≡ 0))
        (ok-injective {E = ResponseError} [] gs h) (tt, tt, tt, refl)
  check_groups-IsGrounded i seen (c ∷ cs) gs h =
      let (g, k1, h1) = wrapped_bind (group_error i) (check_group digest known c) _ gs h in
      let (n2, h2) = checked (is_member g.id seen) (duplicate_group g.id) _ gs h1 in
      let (rest, k3, h3) = bound_ok (check_groups digest known (suc i) (g.id ∷ seen) cs) _ gs h2 in
      let (good, apart, fresh, len) = check_groups-IsGrounded (suc i) (g.id ∷ seen) cs rest k3 in
      let (differ, unseen) = fresh_keys group_key g.id seen rest fresh in
      subst
        (λ xs.
          All (IsGrounded known) xs
          × Distinct group_key xs
          × All (λ g. is_member (group_key g) seen ≡ false) xs
          × (length xs ≡ suc (length cs)))
        (ok-injective {E = ResponseError} (g ∷ rest) gs h3)
        ((check_group-IsGrounded c g k1, good), (differ, apart), (n2, unseen), ap (λ n. suc n) len)

  -- Where each known member is known under its own identity, an accepted answer has at most 100
  -- groups, in ascending identities, and every group is grounded: it has 2 to 50 different known
  -- members, an open one among them, and at most 200 edges with different keys; what it cites is
  -- known and belongs to its members, and each edge has a listed type and confidence, a reason, and
  -- two different members of the group to which everything that it cites belongs.
  pub validate_response-IsGrounded :
      (decode : String → Option (List Candidate)) (body : String) (gs : List Group)
      → validate_response digest decode body known ≡ ok gs
      → All (IsGrounded known) gs × Ascending group_key gs × (length gs ≤ 100)
  unfolding validate_response
  validate_response-IsGrounded decode body gs h = elim (Option-cases (decode body)) [
    | inl k ↦ ground arith
    | inr (cs, k) ↦
        let chain : (reject (ltb 100 (length cs)) too_many_groups
              >> (check_groups digest known 0 [] cs >>= (λ xs. ok (sort_by group_key xs))))
            ≡ ok gs =
          ground arith in
        let (n1, h1) = checked (ltb 100 (length cs)) too_many_groups _ gs chain in
        let (xs, k2, h2) = bound_ok (check_groups digest known 0 [] cs) _ gs h1 in
        let (good, apart, fresh, len) = check_groups-IsGrounded 0 [] cs xs k2 in
        subst (λ ys. All (IsGrounded known) ys × Ascending group_key ys × (length ys ≤ 100))
          (ok-injective {E = ResponseError} (sort_by group_key xs) gs h2)
          (
            All-sort_by group_key _ xs good,
            sort_by-Ascending group_key xs apart,
            omega (arith, length-sort_by group_key xs, len, not_ltb 100 (length cs) n1),
          )
  ]

-- In an answer to a request that is accepted against its sources, every member of a group is a pull
-- request of the request, or a closed or merged one that one of them refers to.
pub validate_response-ComesFrom :
    (digest : String → String) (decode : String → Option (List Candidate)) (body : String)
    (request : Request) (gs : List Group)
    → validate_response digest decode body (known_sources request) ≡ ok gs
    → All (λ g. All (λ m. Any (ComesFrom m) request.pull_requests) g.members) gs
unfolding IsGrounded
validate_response-ComesFrom digest decode body request gs h =
    let keyed : Keyed (known_sources request) =
      λ id m e. (known_sources-ComesFrom request id m e).0 in
    All-weaken (IsGrounded (known_sources request)) _ gs
      (λ g k.
        All-weaken (λ m. (known_sources request).members m.source_id ≡ some m) _ g.members
          (λ m e. (known_sources-ComesFrom request m.source_id m e).1) k.3)
      (validate_response-IsGrounded digest (known_sources request) keyed decode body gs h).0
