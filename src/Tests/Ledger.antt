-- ===== src/Tests/Ledger.antt =====
-- Runs of src/store/usage-ledger.ts: a session that shows usage from before the ledger.
use codedeck.Store.Sessions.{update, get, get_exact}
use codedeck.Common.{
  ◌==◌, starts_with, if◌then◌else◌, Text, codes, ◌≡◌, refl, Bool, true, false, Option, none, some,
  [],
}
use codedeck.Core.Session.{Session}
use codedeck.Store.Sessions.Row.{session_to_row, SessionRow}
use codedeck.Store.Ledger.{sum_of, marks_of, Ledger, Observation, observe, usage_amounts}
use codedeck.Store.Ledger.Conserved.{IsConserved, IsBalanced, observe-IsConserved}
use codedeck.Store.Ledger.Shown.{observe-shows_sums, row_at, sums}
use codedeck.Store.Ledger.Again.{observe_again}
use codedeck.Store.Ledger.Totals.{input_field, output_field, cached_field}
use codedeck.Tests.Fixtures.{test_floats, idle_session, table_of, sid}

abbrev used_session : Session
used_session = record idle_session {
  usage =
      some (record {
        input_tokens = some 7;
        output_tokens = some 2;
        cached_tokens = none;
        cost = none;
      });
}

abbrev fresh : Ledger
fresh = record { sources = []; attributions = []; sessions = table_of used_session }

abbrev seen : Observation
seen = record {
  amounts = record {
    cost = some 5;
    input_tokens = some 10;
    output_tokens = some 1;
    cached_tokens = none;
  };
  model = some (codes "opus");
}

abbrev source : Text
source = codes "n1:1"

abbrev changed_in : Option (Bool × Ledger) → Bool
changed_in none = false
changed_in (some r) = r.0

abbrev ledger_in : Option (Bool × Ledger) → Ledger
ledger_in none = fresh
ledger_in (some r) = r.1

abbrev after : Ledger
after = ledger_in (observe sid source seen true 9 fresh)

fresh-IsBalanced : IsBalanced fresh.sources fresh.attributions
unfolding marks_of
fresh-IsBalanced input_field k = refl
fresh-IsBalanced output_field k = refl
fresh-IsBalanced cached_field k = refl

observe-IsConserved_example : IsConserved after
unfolding starts_with observe ◌==◌ session_to_row update get get_exact
observe-IsConserved_example =
    observe-IsConserved sid source refl seen true 9 fresh true after (fresh-IsBalanced, tt) refl

observe-shows_sums_example :
    (changed : Bool) × (l' : Ledger) × (q : SessionRow) × (observe sid source seen true 9 fresh
      ≡ some (changed, l'))
    × (row_at l'.sessions sid ≡ some q)
    × (usage_amounts q ≡ (
        if changed then sums sid l'.attributions else usage_amounts (session_to_row used_session)))
unfolding ◌==◌ session_to_row
observe-shows_sums_example =
    observe-shows_sums sid source seen true 9 fresh (session_to_row used_session) refl

observe_again_example : observe sid source seen false 11 after ≡ some (false, after)
unfolding observe ◌==◌ session_to_row update get get_exact
observe_again_example = observe_again sid source seen true false 9 11 fresh true after refl

-- The seed raised the mark of input tokens to 7, so only 3 are new.
three_new :
    ((sums sid after.attributions).input_tokens ≡ some 10)
    × ((sums sid after.attributions).cost ≡ some 5)
unfolding sum_of observe ◌==◌ session_to_row update get get_exact
three_new = (refl, refl)
