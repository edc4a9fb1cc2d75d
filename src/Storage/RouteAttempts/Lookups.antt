-- ===== src/Storage/RouteAttempts/Lookups.antt =====
-- What replacing the attempts of one operation does to every lookup.
use maintainer_cockpit.Prelude.{
  String, List, [], ◌∷◌, ◌≡◌, ◌&&◌, arith, if◌then◌else◌, str_eq, eq_iff,
}
use maintainer_cockpit.Storage.Clock.{Instant}
use maintainer_cockpit.Storage.RouteAttempts.{
  RouteAttempt, OperationRow, attempts_of, put_operation,
}

-- Replacing the attempts of one repository and operation leaves these attempts there, and every
-- other repository and operation as it was.
pub attempts_of-put_operation :
    (repository operation : String) (at : Instant) (attempts : List RouteAttempt)
    (rows : List OperationRow) (r o : String)
    → attempts_of r o (put_operation repository operation at attempts rows)
      ≡ (if str_eq repository r && str_eq operation o then attempts else attempts_of r o rows)
unfolding attempts_of put_operation
attempts_of-put_operation repository operation at attempts [] r o = ground arith
attempts_of-put_operation repository operation at attempts (row ∷ rows) r o = ground (
  arith,
  eq_iff row.repository repository,
  eq_iff row.operation operation,
  eq_iff row.repository r,
  eq_iff row.operation o,
  eq_iff repository r,
  eq_iff operation o,
  attempts_of-put_operation repository operation at attempts rows r o,
)
