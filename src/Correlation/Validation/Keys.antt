-- ===== src/Correlation/Validation/Keys.antt =====
-- The key of an edge (edgeKey) and the direction of the edge.
use maintainer_cockpit.Prelude.{
  false, ◌≡◌, inl, inr, Bool-cases, str_eq, text_lt, text_lt_connex, text_lt_asym, refl,
}
use maintainer_cockpit.Correlation.{Edge}
use maintainer_cockpit.Correlation.Validation.{edge_key, stacked}

-- The same edge with its ends exchanged.
abbrev pub reversed : Edge → Edge
reversed e = record e { from = e.to; to = e.from }

-- An edge and its reverse have one key, unless the edge is a stack.
pub edge_key-reversed :
    (e : Edge) → str_eq e.type stacked ≡ false → edge_key (reversed e) ≡ edge_key e
unfolding edge_key
edge_key-reversed e h = elim (Bool-cases (text_lt e.to e.from)) [
  | inl k ↦ rw h (rw k (rw (text_lt_asym e.to e.from k) refl))
  | inr k ↦ elim (Bool-cases (text_lt e.from e.to)) [
    | inl l ↦ rw h (rw k (rw l refl))
    | inr l ↦ rw (text_lt_connex e.from e.to l k) refl
  ]
]
