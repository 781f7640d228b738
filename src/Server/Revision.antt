-- ===== src/Server/Revision.antt =====
-- `validateExpectedRevision` of internal/api/environments.go, and the text that it answers with.
use infra_orch_studio.Common.{ℕ, Option, none, some, Text, units, ◌==◌, if◌then◌else◌}

-- `none` lets the request pass; otherwise the status and the message of the answer.
unfoldable pub validate_expected_revision : ℕ → Option ℕ → Option (ℕ × Text)
validate_expected_revision revision none = none
validate_expected_revision revision (some expected) =
    if expected == revision
    then none
    else some (409, units "environment revision precondition failed; refresh and retry")
