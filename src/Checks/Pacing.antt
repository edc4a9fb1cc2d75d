-- ===== src/Checks/Pacing.antt =====
-- A queue of two authors, claimed twice.
use maintainer_cockpit.Prelude.{ℕ, pos, true, none, some, List, [], ◌∷◌, ◌≡◌, refl}
use maintainer_cockpit.Storage.Clock.{Instant, stored_le}
use maintainer_cockpit.Storage.Rows.{running}
use maintainer_cockpit.Storage.Ancillary.{AncillaryJob, AncillaryTables}
use maintainer_cockpit.Storage.Ancillary.Pacing.{
  AncillaryCommand, enqueues, claims, completes, claim_times, Spaced, claim_times-Spaced,
}

abbrev at : ℕ → Instant
at n = record { seconds = n; nanos = 0 }

abbrev no_authors : AncillaryTables
no_authors = record { jobs = []; sequence = 0; next_attempt_at = none; authors = [] }

abbrev first_job : AncillaryJob
first_job = record {
  id = 1;
  author_id = pos 7;
  login = "ada";
  status = running;
  scheduled_for = at 10;
  started_at = some (at 20);
  finished_at = none;
}

-- The third claim comes too early, the fourth one does not.
abbrev two_claims : List AncillaryCommand
two_claims =
    enqueues (some true) ((pos 7, "ada") ∷ (pos 8, "bob") ∷ []) (at 10)
    ∷ claims (at 20)
    ∷ claims (at 21)
    ∷ completes first_job none (at 22)
    ∷ claims (at 84)
    ∷ claims (at 85)
    ∷ []

claimed_twice : claim_times two_claims no_authors ≡ at 20 ∷ at 85 ∷ []
unfolding claim_times stored_le
claimed_twice = refl

claim_times-Spaced_example : Spaced (claim_times two_claims no_authors)
claim_times-Spaced_example = claim_times-Spaced two_claims no_authors
