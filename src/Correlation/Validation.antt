-- ===== src/Correlation/Validation.antt =====
-- ValidateResponse of internal/correlation/correlation.go: an answer of the model is accepted as a
-- whole or rejected with its first defect.
pub mod Keys
pub mod Grounded
pub mod Groups
use maintainer_cockpit.Prelude.{
  ℕ, suc, String, Bool, true, false, not, Option, none, some, List, [], ◌∷◌, ◌++◌, ◌&&◌, ◌||◌, ◌==◌,
  ltb, length, map, count, str_eq, is_member, join, rune_count, text_lt, sort_by, Result, ok, err,
  ◌>>=◌, ◌>>◌, reject, if◌then◌else◌, wrap,
}
use Prim.Native.String.{◌++◌ as ◌+++◌}
use maintainer_cockpit.Correlation.{Member, Evidence, Edge, Group}
use maintainer_cockpit.Correlation.Texts.{normalize_text, sorted_unique}
use maintainer_cockpit.Correlation.Known.{Known}

-- One group of the answer, as decoded.
pub record Candidate : Type 0 where
  pub name : String
  pub description : String
  pub confidence : String
  pub source_ids : List String
  pub members : List String
  pub edges : List Edge

-- One constructor for each error.
pub data EvidenceError : Type 0 where
  source_count : EvidenceError
  unknown_source unrelated_source duplicate_source : String → EvidenceError

pub data EdgeError : Type 0 where
  invalid_type : String → EdgeError
  invalid_edge_confidence invalid_reason self_referential unknown_from unknown_to : EdgeError
  edge_evidence : EvidenceError → EdgeError

pub data GroupError : Type 0 where
  invalid_name invalid_description invalid_confidence member_count duplicate_members : GroupError
  unknown_member : String → GroupError
  no_open_pull_requests too_many_edges duplicate_edge : GroupError
  group_evidence : EvidenceError → GroupError
  edge_error : ℕ → EdgeError → GroupError

pub data ResponseError : Type 0 where
  undecodable too_many_groups : ResponseError
  group_error : ℕ → GroupError → ResponseError
  duplicate_group : String → ResponseError

abbrev pub valid_confidence : String → Bool
valid_confidence value = str_eq value "medium" || str_eq value "high"

abbrev pub stacked : String
stacked = "stacked_on_top_of"

abbrev pub edge_types : List String
edge_types = "duplicated" ∷ "competing_design" ∷ stacked ∷ "related" ∷ []

-- The loop of validateEvidence with the identities seen so far.
unfoldable pub evidence_items :
    (String → Option Evidence)
    → List String
    → List String
    → List String
    → Result EvidenceError (Unit {0})
evidence_items known relevant seen [] = ok tt
evidence_items known relevant seen (id ∷ ids) =
    let rest = evidence_items known relevant (id ∷ seen) ids in
    elim (known id) [
      | none ↦ err (unknown_source id)
      | some e ↦
          reject (not (is_member e.owner relevant) && not (is_member e.entity_id relevant))
            (unrelated_source id)
          >> reject (is_member id seen) (duplicate_source id)
          >> rest
    ]

unfoldable pub validate_evidence :
    List String → (String → Option Evidence) → List String → Result EvidenceError (Unit {0})
unfolding evidence_items
validate_evidence ids known relevant = do
  reject (length ids == 0 || ltb 20 (length ids)) source_count
  evidence_items known relevant [] ids

-- edgeKey: only the direction of a stack tells an edge from its reverse
unfoldable pub edge_key : Edge → String
unfolding text_lt join
edge_key edge =
    let swap : Bool = not (str_eq edge.type stacked) && text_lt edge.to edge.from in
    join "\0" (
      edge.type
      ∷ (if swap then edge.to else edge.from)
      ∷ (if swap then edge.from else edge.to)
      ∷ [])

-- The checks of one edge before its key is looked up.
unfoldable pub check_edge : (String → Option Evidence) → List String → Edge → Result EdgeError Edge
unfolding normalize_text rune_count validate_evidence sorted_unique
check_edge known members edge = do
  reject (not (is_member edge.type edge_types)) (invalid_type edge.type)
  reject (not (valid_confidence edge.confidence)) invalid_edge_confidence
  let reason = normalize_text edge.reason
  reject (str_eq reason "" || ltb 500 (rune_count reason)) invalid_reason
  reject (str_eq edge.from edge.to) self_referential
  reject (not (is_member edge.from members)) unknown_from
  reject (not (is_member edge.to members)) unknown_to
  wrap edge_evidence (validate_evidence edge.source_ids known (edge.from ∷ edge.to ∷ []))
  ok (record edge { reason = reason; source_ids = sorted_unique edge.source_ids })

-- The loop over the edges of a group, with the keys seen so far.
unfoldable pub check_edges :
    (String → Option Evidence)
    → List String
    → ℕ
    → List String
    → List Edge
    → Result GroupError (List Edge)
unfolding check_edge edge_key
check_edges known members index seen [] = ok []
check_edges known members index seen (edge ∷ edges) = do
  checked ← wrap (edge_error index) (check_edge known members edge)
  reject (is_member (edge_key edge) seen) duplicate_edge
  rest ← check_edges known members (suc index) (edge_key edge ∷ seen) edges
  ok (checked ∷ rest)

-- The members of a group, each looked up.
unfoldable pub find_members :
    (String → Option Member) → List String → Result GroupError (List Member)
find_members known [] = ok []
find_members known (id ∷ ids) =
    let rest = find_members known ids in
    elim (known id) [ none ↦ err (unknown_member id) | some m ↦ rest >>= (λ ms. ok (m ∷ ms)) ]

abbrev pub is_open : Member → Bool
is_open m = str_eq m.state "open"

abbrev pub member_key : Member → String
member_key m = m.source_id

abbrev pub group_key : Group → String
group_key g = g.id

-- The digest is the first eight bytes, in hexadecimal, of the SHA-256 of a text.
module _ (digest : String → String) where
  unfoldable pub group_id : List String → String
  unfolding join
  group_id members = "group-" +++ digest (join "\0" members)

  -- The checks of one group before its identity is looked up.
  unfoldable pub check_group : Known → Candidate → Result GroupError Group
  unfolding normalize_text rune_count sorted_unique find_members validate_evidence check_edges
      group_id sort_by
  check_group known candidate = do
    let name = normalize_text candidate.name
    let description = normalize_text candidate.description
    reject (str_eq name "" || ltb 120 (rune_count name)) invalid_name
    reject (str_eq description "" || ltb 500 (rune_count description)) invalid_description
    reject (not (valid_confidence candidate.confidence)) invalid_confidence
    reject (ltb (length candidate.members) 2 || ltb 50 (length candidate.members)) member_count
    let ids = sorted_unique candidate.members
    reject (not (length ids == length candidate.members)) duplicate_members
    members ← find_members known.members ids
    reject (count is_open members == 0) no_open_pull_requests
    wrap group_evidence (validate_evidence candidate.source_ids known.evidence ids)
    reject (ltb 200 (length candidate.edges)) too_many_edges
    edges ← check_edges known.evidence ids 0 [] candidate.edges
    ok (record {
      id = group_id ids;
      name = name;
      description = description;
      confidence = candidate.confidence;
      source_ids = sorted_unique candidate.source_ids;
      members = sort_by member_key members;
      edges = sort_by edge_key edges;
    })

  -- The loop over the groups, with the identities seen so far.
  unfoldable pub check_groups :
      Known → ℕ → List String → List Candidate → Result ResponseError (List Group)
  unfolding check_group
  check_groups known index seen [] = ok []
  check_groups known index seen (c ∷ cs) = do
    group ← wrap (group_error index) (check_group known c)
    reject (is_member group.id seen) (duplicate_group group.id)
    rest ← check_groups known (suc index) (group.id ∷ seen) cs
    ok (group ∷ rest)

  -- The answer is decoded strictly: no unknown fields, exactly one JSON document.
  unfoldable pub validate_response :
      (String → Option (List Candidate)) → String → Known → Result ResponseError (List Group)
  unfolding check_groups sort_by
  validate_response decode body known = elim (decode body) [
    | none ↦ err undecodable
    | some candidates ↦
        reject (ltb 100 (length candidates)) too_many_groups
        >> (check_groups known 0 [] candidates >>= (λ gs. ok (sort_by group_key gs)))
  ]
