-- ===== src/Tests/Core.antt =====
-- The classification of failures on concrete output.
use codedeck.Common.{codes, none, some}
use codedeck.Core.Failure.{classify_failure}
use codedeck.Core.Failure.Laws.{IsCoherent, classify_failure-IsCoherent}

classify_failure-IsCoherent_example :
    IsCoherent (classify_failure (codes "database is locked") (some 1) none)
classify_failure-IsCoherent_example =
    classify_failure-IsCoherent (codes "database is locked") (some 1) none
