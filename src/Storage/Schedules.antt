-- ===== src/Storage/Schedules.antt =====
-- The table schedule_dispatches (internal/storage/periodic.go): when each scheduled target was last
-- dispatched.
use maintainer_cockpit.Prelude.{
  String, Bool, true, false, not, List, [], ◌∷◌, ◌&&◌, ◌||◌, keep, str_eq, ◌≡◌, if_both, arith,
  if◌then◌else◌,
}
use maintainer_cockpit.Storage.Clock.{Instant}

pub record ScheduleRow : Type 0 where
  pub operation : String
  pub target : String
  pub last_dispatched_at : Instant

abbrev pub is_for : String → String → ScheduleRow → Bool
is_for operation target r = str_eq r.operation operation && str_eq r.target target

unfoldable pub has_schedule : String → String → List ScheduleRow → Bool
has_schedule operation target [] = false
has_schedule operation target (r ∷ rs) =
    is_for operation target r || has_schedule operation target rs

-- INSERT OR IGNORE: whether the target is new, and the rows
unfoldable pub initialize_schedule :
    String → String → Instant → List ScheduleRow → Bool × List ScheduleRow
unfolding has_schedule
initialize_schedule operation target now rows =
    if has_schedule operation target rows
    then (false, rows)
    else (true, record { operation = operation; target = target; last_dispatched_at = now } ∷ rows)

abbrev renewed : String → String → Instant → List ScheduleRow → List ScheduleRow
renewed operation target now [] = []
renewed operation target now (r ∷ rs) =
    let rest = renewed operation target now rs in
    (if is_for operation target r then record r { last_dispatched_at = now } else r) ∷ rest

-- INSERT … ON CONFLICT DO UPDATE
unfoldable pub record_schedule_dispatch :
    String → String → Instant → List ScheduleRow → List ScheduleRow
unfolding has_schedule
record_schedule_dispatch operation target now rows =
    if has_schedule operation target rows
    then renewed operation target now rows
    else record { operation = operation; target = target; last_dispatched_at = now } ∷ rows

unfoldable pub delete_schedule_state : String → String → List ScheduleRow → List ScheduleRow
delete_schedule_state operation target rows = keep (λ r. not (is_for operation target r)) rows

has_schedule-renewed :
    (o t o' t' : String) (now : Instant) (rows : List ScheduleRow)
    → has_schedule o t rows ≡ true
    → has_schedule o t (renewed o' t' now rows) ≡ true
unfolding has_schedule
has_schedule-renewed o t o' t' now [] h = h
has_schedule-renewed o t o' t' now (r ∷ rs) h =
    ground (arith, has_schedule-renewed o t o' t' now rs)

-- Recording a dispatch makes no target new and loses none.
pub has_schedule-record_schedule_dispatch :
    (o t o' t' : String) (now : Instant) (rows : List ScheduleRow)
    → has_schedule o t rows ≡ true
    → has_schedule o t (record_schedule_dispatch o' t' now rows) ≡ true
unfolding record_schedule_dispatch has_schedule
has_schedule-record_schedule_dispatch o t o' t' now rows h =
    if_both (λ rs. has_schedule o t rs ≡ true) (has_schedule o' t' rows)
      (λ _. has_schedule-renewed o t o' t' now rows h) (λ _. ground arith)
