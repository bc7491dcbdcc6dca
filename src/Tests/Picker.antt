-- ===== src/Tests/Picker.antt =====
-- Keys on a picker of two models, one of which is typed by hand.
use codedeck.Common.{
  includes, ◌==◌, to_lower, trim, Text, codes, ◌≡◌, refl, true, false, none, some, [], ◌∷◌, arith,
}
use codedeck.Cli.Picker.{
  visible_items, PickerItem, Screen, PickerState, Key, apply_key, no_action, parse_free_text,
  item_key,
}
use codedeck.Cli.Picker.View.{IsInView, apply_key-IsInView}
use codedeck.Cli.Picker.Choice.{IsChoice, apply_key-IsChoice}
use codedeck.Cli.Picker.Typed.{parse-item_key}

abbrev model : Text → PickerItem
model id = record {
  id = id;
  label = id;
  group = none;
  name = none;
  synthetic = false;
  harness = some (codes "codex");
}

abbrev screen : Screen
screen = record {
  role = codes "worker";
  items = model (codes "gpt") ∷ model (codes "luna") ∷ [];
  known = codes "codex:gpt" ∷ codes "codex:luna" ∷ [];
  harnesses = codes "codex" ∷ [];
}

abbrev at_second : PickerState
at_second = record {
  screen = screen;
  filter = [];
  cursor = 1;
  offset = 1;
  pasting = false;
  confirming = none;
}

abbrev typed_by_hand : PickerState
typed_by_hand = record at_second {
  filter = codes "codex:new";
  cursor = 0;
  offset = 0;
  confirming = some (codes "codex:new");
}

abbrev named : Text → Key
named name = record { sequence = []; name = some name; ctrl = false; meta = false }

apply_key-IsInView_example : IsInView 1 (apply_key at_second (named (codes "up")) 1).0
unfolding visible_items to_lower trim
apply_key-IsInView_example =
    apply_key-IsInView 1 at_second (named (codes "up")) (omega arith)
      (omega arith, omega arith, omega arith)

apply_key-IsChoice_example : IsChoice typed_by_hand (codes "new") (codes "codex")
unfolding apply_key ◌==◌ to_lower trim includes parse_free_text
apply_key-IsChoice_example =
    apply_key-IsChoice typed_by_hand (named (codes "return")) 5 (codes "new") (codes "codex") refl

parse-item_key_example :
    parse_free_text (item_key (some (codes "codex")) (codes "a:b")) (codes "codex" ∷ [])
    ≡ some (record { harness = codes "codex"; id = codes "a:b" })
unfolding ◌==◌ to_lower trim
parse-item_key_example =
    parse-item_key (codes "codex" ∷ []) (codes "codex") (codes "a:b") refl refl refl refl refl refl

-- A line feed in a paste neither picks nor enters the filter.
pasted_line :
    apply_key
      (record at_second { pasting = true })
      (record { sequence = codes "\n"; name = some (codes "return"); ctrl = false; meta = false })
      5
    ≡ (record at_second { pasting = true }, no_action)
unfolding apply_key ◌==◌
pasted_line = refl
