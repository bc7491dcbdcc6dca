-- ===== src/Cli/Picker.antt =====
-- src/cli/picker-state.ts: the state of the model picker and what a key does to it. Of a screen
-- the fields that the keys read are kept; the callback `next` belongs to the session that shows
-- the screens. A set of texts is the list of its members in the order of insertion.
pub mod View
pub mod Choice
pub mod Typed
use codedeck.Common.{
  ℕ, ◌+◌, ◌-◌, max, min, Text, codes, Bool, true, false, Option, none, some, List, [], ◌∷◌, ◌++◌,
  ◌==◌, ◌&&◌, ◌||◌, not, ltb, leb, eqb, length, get_elem?, any, filter_by, get_or, is_empty,
  includes, trim, to_lower, if◌then◌else◌,
}

pub record PickerItem : Type 0 where
  pub id : Text
  pub label : Text
  pub group : Option Text
  pub name : Option Text
  pub synthetic : Bool
  pub harness : Option Text

pub record Screen : Type 0 where
  pub role : Text
  pub items : List PickerItem
  pub known : List Text
  pub harnesses : List Text

pub record PickerState : Type 0 where
  pub screen : Screen
  pub filter : Text
  pub cursor : ℕ
  pub offset : ℕ
  pub pasting : Bool
  pub confirming : Option Text

pub record Key : Type 0 where
  pub sequence : Text
  pub name : Option Text
  pub ctrl : Bool
  pub meta : Bool

pub data PickerAction : Type 0 where
  no_action skipped aborted : PickerAction
  picked : Text → Text → PickerAction  -- id and harness

abbrev pub has : List Text → Text → Bool
has set x = any (λ y. y == x) set

unfoldable pub item_key : Option Text → Text → Text
item_key harness id = get_or harness [] ++ codes ":" ++ id

unfoldable pub initial_state : Screen → PickerState
initial_state screen = record {
  screen = screen;
  filter = [];
  cursor = 0;
  offset = 0;
  pasting = false;
  confirming = none;
}

abbrev field_matches : Text → Option Text → Bool
field_matches filter none = false
field_matches filter (some field) = includes filter (to_lower field)

unfoldable pub matches : PickerItem → Text → Bool
matches item filter =
    field_matches filter (some item.label)
    || field_matches filter (some item.id)
    || field_matches filter item.group
    || field_matches filter item.name

unfoldable pub hit_count : PickerState → ℕ
unfolding matches
hit_count state =
    let filter = to_lower (trim state.filter) in
    if is_empty filter
    then length state.screen.items
    else length (filter_by (λ item. matches item filter) state.screen.items)

-- The text before the first colon, and the text after it.
unfoldable pub cut_at_colon : Text → Option (Text × Text)
cut_at_colon [] = none
cut_at_colon (c ∷ raw) =
    let rest = cut_at_colon raw in
    if eqb c b':' then some ([], raw) else elim rest [ none ↦ none | some p ↦ some (c ∷ p.0, p.1) ]

pub record FreeText : Type 0 where
  pub harness : Text
  pub id : Text

abbrev pub parsed : List Text → Text → Text → Option FreeText
parsed harnesses harness id =
    if is_empty id || not (has harnesses harness)
    then none
    else some (record { harness = harness; id = id })

abbrev pub parse_cut : List Text → Option (Text × Text) → Option FreeText
parse_cut harnesses none = none
parse_cut harnesses (some p) =
    if is_empty p.0 then none else parsed harnesses (to_lower (trim p.0)) (trim p.1)

unfoldable pub parse_free_text : Text → List Text → Option FreeText
unfolding cut_at_colon
parse_free_text raw harnesses = parse_cut harnesses (cut_at_colon raw)

abbrev first_or : Text → List Text → Text
first_or t [] = t
first_or t (x ∷ xs) = x

-- The one row of a screen without hits.
abbrev pub written_row : Text → List Text → Option FreeText → PickerItem
written_row raw harnesses (some typed) = record {
  id = typed.id;
  label = codes "usar \"" ++ typed.id ++ codes "\" em " ++ typed.harness;
  group = none;
  name = none;
  synthetic = true;
  harness = some typed.harness;
}
written_row raw harnesses none =
    let example = first_or (codes "codex") harnesses in
    record {
      id = [];
      label =
          if is_empty raw
          then codes "digite harness:modelo, por exemplo " ++ example ++ codes ":gpt-5.7"
          else codes "escreva " ++ example ++ codes ":" ++ raw;
      group = none;
      name = none;
      synthetic = true;
      harness = none;
    }

unfoldable pub hits : PickerState → List PickerItem
unfolding matches
hits state =
    let filter = to_lower (trim state.filter) in
    if is_empty filter
    then state.screen.items
    else filter_by (λ item. matches item filter) state.screen.items

abbrev pub or_written : PickerState → List PickerItem → List PickerItem
or_written state [] =
    let raw = trim state.filter in
    written_row raw state.screen.harnesses (parse_free_text raw state.screen.harnesses) ∷ []
or_written state (item ∷ items) = item ∷ items

unfoldable pub visible_items : PickerState → List PickerItem
unfolding hits
visible_items state = or_written state (hits state)

-- `Math.max(offset, cursor - viewport + 1)`: a negative number never is the larger one.
unfoldable pub scrolled : PickerState → ℕ → ℕ → PickerState
scrolled state cursor viewport = record state {
  cursor = cursor;
  offset = max (min state.offset cursor) (cursor + 1 - viewport);
}

unfoldable pub reanchor : PickerState → ℕ → PickerState
unfolding scrolled
reanchor state viewport = scrolled state state.cursor viewport

-- Neither a control key, nor a sequence of several characters, nor a control character.
abbrev pub is_typed : Key → Bool
is_typed key =
    not key.ctrl
    && not key.meta
    && eqb (length key.sequence) 1
    && not (any (λ c. ltb c 32) key.sequence)

abbrev pub is_named : Text → Key → Bool
is_named name key = elim key.name [ none ↦ false | some n ↦ n == name ]

unfoldable pub drop_last : Text → Text
drop_last [] = []
drop_last (c ∷ []) = []
drop_last (c ∷ d ∷ s) = c ∷ drop_last (d ∷ s)

abbrev pub with_filter : Text → PickerState → PickerState
with_filter filter state = record state {
  filter = filter;
  cursor = 0;
  offset = 0;
  confirming = none;
}

unfoldable pub paste : PickerState → Key → PickerState × PickerAction
paste state key =
    if is_typed key
    then (with_filter (state.filter ++ key.sequence) state, no_action)
    else (state, no_action)

abbrev pub is_pending : Option Text → Text → Bool
is_pending none entry = false
is_pending (some p) entry = p == entry

-- Enter on a row with a harness.
unfoldable pub choose : PickerState → Option Text → PickerItem → Text → PickerState × PickerAction
unfolding item_key
choose cleared pending item harness =
    let entry = item_key (some harness) item.id in
    if not item.synthetic || has cleared.screen.known entry || is_pending pending entry
    then (cleared, picked item.id harness)
    else (record cleared { confirming = some entry }, no_action)

-- Enter on the row under the cursor.
unfoldable pub enter : PickerState → Option Text → Option PickerItem → PickerState × PickerAction
unfolding choose
enter cleared pending none = (cleared, no_action)
enter cleared pending (some item) =
    if item.synthetic && is_empty item.id then (cleared, no_action) else elim item.harness [
      | none ↦ (cleared, no_action)
      | some harness ↦
          if is_empty harness then (cleared, no_action) else choose cleared pending item harness
    ]

-- The keys behind the guards on pastes, ^C and ^G.
unfoldable pub apply_plain : PickerState → Key → ℕ → PickerState × PickerAction
unfolding visible_items scrolled enter drop_last
apply_plain state key viewport =
    let items = visible_items state in
    let cleared : PickerState = record state { confirming = none } in
    if is_named (codes "return") key
    then enter cleared state.confirming (get_elem? items cleared.cursor)
    else if is_named (codes "up") key
    then (scrolled cleared (cleared.cursor - 1) viewport, no_action)
    else if is_named (codes "down") key
    then (scrolled cleared (min (length items - 1) (cleared.cursor + 1)) viewport, no_action)
    else if is_named (codes "backspace") key
    then (with_filter (drop_last cleared.filter) cleared, no_action)
    else if is_typed key
    then (with_filter (cleared.filter ++ key.sequence) cleared, no_action)
    else (cleared, no_action)

unfoldable pub apply_key : PickerState → Key → ℕ → PickerState × PickerAction
unfolding paste apply_plain
apply_key state key viewport =
    if is_named (codes "paste-start") key
    then (record state { pasting = true }, no_action)
    else if is_named (codes "paste-end") key
    then (record state { pasting = false }, no_action)
    else if state.pasting
    then paste state key
    else if key.ctrl && is_named (codes "c") key
    then (state, aborted)
    else if key.ctrl && is_named (codes "g") key
    then (state, skipped)
    else apply_plain state key viewport
