-- ===== src/Periodic.antt =====
-- The coordinator of cron schedules (internal/periodic/coordinator.go and parse.go). The schedules
-- are the ones of the cron library; the dispatches are functions of the caller, of which the world
-- keeps the calls.
pub mod Waiting
pub mod Due
pub mod Restart
use maintainer_cockpit.Prelude.{
  ℕ, String, Bool, true, false, not, Option, none, some, List, [], ◌∷◌, ◌++◌, ◌||◌, ◌==◌, length,
  str_eq, trim_space, fields, Result, ok, err, ◌>>=◌, ◌>>◌, reject, if◌then◌else◌,
}
use maintainer_cockpit.Storage.Clock.{Instant, is_zero, zero_time, earlier}
use maintainer_cockpit.Storage.Schedules.{
  ScheduleRow, initialize_schedule, record_schedule_dispatch,
}

-- One constructor for each error; the failure of a dispatch keeps the operation and its text.
pub data PeriodicError : Type 0 where
  no_state missing_operation_or_dispatch : PeriodicError
  bad_schedule : String → PeriodicError
  bootstrap_failed dispatch_failed : String → String → PeriodicError

-- A call of an entry's Dispatch.
pub record Call : Type 0 where
  pub operation : String
  pub target : String
  pub at : Instant

-- What the coordinator changes outside itself.
pub record World : Type 0 where
  pub schedules : List ScheduleRow
  pub calls : List Call

pub record Status : Type 0 where
  pub operation : String
  pub collection : String
  pub expression : String
  pub enabled : Bool
  pub next_run : Instant

-- An error or nil, and the world after.
abbrev pub Outcome : Type 0
Outcome = Result PeriodicError (Unit {0}) × World

-- `if err := entry.Dispatch(…); err != nil { return … }`, and what follows.
abbrev pub unless_failed :
    Option String → (String → PeriodicError) → World → (World → Outcome) → Outcome
unless_failed (some text) error w next = (err (error text), w)
unless_failed none error w next = next w

-- Entry, its Dispatch perhaps nil
pub record Entry (D : Type 0) : Type 0 where
  pub operation : String
  pub target : String
  pub expression : String
  pub dispatch : Option D

pub record ScheduledEntry (D S : Type 0) : Type 0 where
  pub operation : String
  pub target : String
  pub expression : String
  pub dispatch : D
  pub schedule : S
  pub next : Instant

pub record Coordinator (D S : Type 0) : Type 0 where
  pub entries : List (ScheduledEntry D S)
  pub initialized : Bool

-- Parse: cron is the parser of the five fields
unfoldable pub parse : {S : Type 0} → (String → Option S) → String → Option S
unfolding trim_space fields
parse cron expression =
    if not (str_eq (trim_space expression) expression)
      || str_eq expression ""
      || not (length (fields expression) == 5)
    then none
    else cron expression

module _ {D S : Type 0} where
  abbrev scheduled : (String → Option S) → Entry D → Result PeriodicError (ScheduledEntry D S)
  scheduled cron e = elim e.dispatch [
    | none ↦ err missing_operation_or_dispatch
    | some d ↦ elim (parse cron e.expression) [
      | none ↦ err (bad_schedule e.operation)
      | some s ↦ ok (record {
        operation = e.operation;
        target = e.target;
        expression = e.expression;
        dispatch = d;
        schedule = s;
        next = zero_time;
      })
    ]
  ]

  -- The loop of New.
  unfoldable pub schedule_all :
      (String → Option S) → List (Entry D) → Result PeriodicError (List (ScheduledEntry D S))
  unfolding parse
  schedule_all cron [] = ok []
  schedule_all cron (e ∷ es) = do
    reject (str_eq e.operation "") missing_operation_or_dispatch
    first ← scheduled cron e
    rest ← schedule_all cron es
    ok (first ∷ rest)

  -- New, with whether a state is given
  unfoldable pub new :
      (String → Option S) → Bool → List (Entry D) → Result PeriodicError (Coordinator D S)
  unfolding schedule_all
  new cron has_state entries = do
    reject (not has_state) no_state
    scheduled_entries ← schedule_all cron entries
    ok (record { entries = scheduled_entries; initialized = false })

  -- next: the loop with the time found so far
  unfoldable pub next_from : Instant → List (ScheduledEntry D S) → Instant
  next_from found [] = found
  next_from found (e ∷ es) =
      next_from (if is_zero found || earlier e.next found then e.next else found) es

  unfoldable pub next_time : Coordinator D S → Instant
  unfolding next_from
  next_time c = next_from zero_time c.entries

  unfoldable pub statuses : List (ScheduledEntry D S) → List Status
  statuses [] = []
  statuses (e ∷ es) =
      record {
        operation = e.operation;
        collection = e.target;
        expression = e.expression;
        enabled = true;
        next_run = e.next;
      }
      ∷ statuses es

  abbrev pub called : ScheduledEntry D S → Instant → World → World
  called e now w = record w {
    calls = w.calls ++ record { operation = e.operation; target = e.target; at = now } ∷ [];
  }

  abbrev pub waits : Instant → ScheduledEntry D S → Bool
  waits now e = is_zero e.next || earlier now e.next

-- next_of is Schedule.Next.
module _ {D S : Type 0} (next_of : S → Instant → Instant) where
  -- The first loop of RunDue: the entries that are due, and all entries with their next times.
  unfoldable pub take_due :
      Instant → List (ScheduledEntry D S) → List (ScheduledEntry D S) × List (ScheduledEntry D S)
  take_due now [] = ([], [])
  take_due now (e ∷ es) =
      let (due, rest) = take_due now es in
      if waits now e
      then (due, e ∷ rest)
      else (e ∷ due, record e { next = next_of e.schedule now } ∷ rest)

  -- The first loop of Initialize.
  unfoldable pub plan_next : Instant → List (ScheduledEntry D S) → List (ScheduledEntry D S)
  plan_next now [] = []
  plan_next now (e ∷ es) = record e { next = next_of e.schedule now } ∷ plan_next now es

-- failure says whether a dispatch at a time fails, with the error's text.
module _ {D S : Type 0} (failure : D → Instant → Option String) where
  -- The second loop of RunDue.
  unfoldable pub dispatch_due :
      Instant → List (ScheduledEntry D S) → World → Result PeriodicError (Unit {0}) × World
  unfolding record_schedule_dispatch
  dispatch_due now [] w = (ok tt, w)
  dispatch_due now (e ∷ es) w =
      let recorded = record w {
        schedules = record_schedule_dispatch e.operation e.target now w.schedules;
      } in
      unless_failed (failure e.dispatch now) (dispatch_failed e.operation) (called e now recorded)
        (dispatch_due now es)

  -- What follows the note of one target, which may be new.
  abbrev pub if_first :
      Instant → ScheduledEntry D S → Bool × List ScheduleRow → World → (World → Outcome) → Outcome
  if_first now e (false, rows) w next = next (record w { schedules = rows })
  if_first now e (true, rows) w next =
      unless_failed (failure e.dispatch now) (bootstrap_failed e.operation)
        (called e now (record w { schedules = rows })) next

  -- The loop of Initialize over the targets.
  unfoldable pub bootstrap :
      Instant → List (ScheduledEntry D S) → World → Result PeriodicError (Unit {0}) × World
  unfolding initialize_schedule
  bootstrap now [] w = (ok tt, w)
  bootstrap now (e ∷ es) w =
      if_first now e (initialize_schedule e.operation e.target now w.schedules) w (bootstrap now es)

module _ {D S : Type 0} (next_of : S → Instant → Instant)
    (failure : D → Instant → Option String) where
  unfoldable pub run_due :
      Instant → Coordinator D S × World → Result PeriodicError (Unit {0}) × Coordinator D S × World
  unfolding take_due dispatch_due
  run_due now (c, w) =
      let (due, entries) = take_due next_of now c.entries in
      let (result, w') = dispatch_due failure now due w in
      (result, record c { entries = entries }, w')

  unfoldable pub initialize :
      Instant → Coordinator D S × World → Result PeriodicError (Unit {0}) × Coordinator D S × World
  unfolding plan_next bootstrap
  initialize now (c, w) =
      let entries = plan_next next_of now c.entries in
      let (result, w') = bootstrap failure now entries w in
      (result, record { entries = entries; initialized = true }, w')
