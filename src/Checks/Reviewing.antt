-- ===== src/Checks/Reviewing.antt =====
-- Two reviewers, the first of whom changes the verdict.
use maintainer_cockpit.Prelude.{String, List, [], ◌∷◌}
use maintainer_cockpit.Github.Reviews.{Review}

abbrev reviews : List Review
reviews =
    record { login = "ada"; state = "APPROVED" }
    ∷ record { login = "ada"; state = "CHANGES_REQUESTED" }
    ∷ record { login = "bob"; state = "APPROVED" }
    ∷ []

abbrev ada : String
ada = "ada"
