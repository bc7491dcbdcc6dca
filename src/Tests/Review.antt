-- ===== src/Tests/Review.antt =====
-- Runs of src/git/review.ts: a patch of one file.
use codedeck.Common.{
  split_at, starts_with, ◌==◌, trim, Text, codes, ◌≡◌, refl, Option, none, some, List, [], ◌∷◌,
  ◌++◌, map, All,
}
use codedeck.Git.Review.{ReviewFile, ReviewLine, context, add, del, parse_unified_diff}
use codedeck.Git.Review.Numbers.{FileIsNumbered, parse_unified_diff-IsNumbered}

no_json : Text → Option Text
no_json t = none

abbrev head : Text
head = codes "diff --git a/q.sql b/q.sql\n--- a/q.sql\n+++ b/q.sql\n@@ -3,2 +3 @@\n"

abbrev lines_of : List ReviewFile → List (List ReviewLine)
lines_of [] = []
lines_of (f ∷ files) = map (λ h. h.lines) f.hunks ++ lines_of files

numbered_lines :
    lines_of (parse_unified_diff no_json (head ++ codes " x\n-y\n+z"))
    ≡ (record { type = context; old_no = some 3; new_no = some 3; text = codes "x" }
        ∷ record { type = del; old_no = some 4; new_no = none; text = codes "y" }
        ∷ record { type = add; old_no = none; new_no = some 4; text = codes "z" }
        ∷ [])
      ∷ []
unfolding parse_unified_diff split_at starts_with ◌==◌ trim
numbered_lines = refl

-- A deleted line "-- y" stands in the patch as "--- y": it is read as a name and is lost.
lost_line :
    lines_of (parse_unified_diff no_json (head ++ codes "--- y\n-z"))
    ≡ (record { type = del; old_no = some 3; new_no = none; text = codes "z" } ∷ []) ∷ []
unfolding parse_unified_diff split_at starts_with ◌==◌ trim
lost_line = refl

parse_unified_diff-IsNumbered_example :
    All FileIsNumbered (parse_unified_diff no_json (head ++ codes " x\n-y\n+z"))
parse_unified_diff-IsNumbered_example =
    parse_unified_diff-IsNumbered no_json (head ++ codes " x\n-y\n+z")
