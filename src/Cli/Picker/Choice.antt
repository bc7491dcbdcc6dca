-- ===== src/Cli/Picker/Choice.antt =====
-- Enter in `applyKey` of src/cli/picker-state.ts: which choices a key can make.
use codedeck.Common.{
  subst, ℕ, ◌≡◌, refl, true, false, Option, none, some, get_elem?, codes, Text, is_empty, if_both,
  if_cases, ◌&&◌, ◌||◌, not, if◌then◌else◌,
}
use codedeck.Cli.Picker.{
  PickerItem, PickerState, Key, PickerAction, no_action, skipped, aborted, picked, visible_items,
  enter, choose, apply_key, apply_plain, paste, is_named, is_typed, has, item_key, is_pending,
}

-- The item is one that Enter may choose: no row of instructions, and an item of the catalog, or
-- known, or confirmed by the Enter before.
abbrev IsChoosable : PickerState → Option Text → PickerItem → Text → Type 0
IsChoosable s pending item harness =
    let entry = item_key (some harness) item.id in
    ((item.synthetic && is_empty item.id) ≡ false)
    × (is_empty harness ≡ false)
    × ((not item.synthetic || has s.screen.known entry || is_pending pending entry) ≡ true)

pub record IsChoice (s : PickerState) (id : Text) (harness : Text) : Type 0 where
  pub item : PickerItem
  pub typing : s.pasting ≡ false
  pub under_cursor : get_elem? (visible_items s) s.cursor ≡ some item
  pub its_id : item.id ≡ id
  pub its_harness : item.harness ≡ some harness
  pub choosable : IsChoosable s s.confirming item harness

Allowed : PickerState → PickerState × PickerAction → Type 0
Allowed s r = elim r.1 [
  | no_action ↦ Unit
  | skipped ↦ Unit
  | aborted ↦ Unit
  | picked id harness ↦ IsChoice s id harness
]

module _ (s : PickerState) (typing : s.pasting ≡ false) where
  choose-Allowed :
      (item : PickerItem) (harness : Text)
      → get_elem? (visible_items s) s.cursor ≡ some item
      → item.harness ≡ some harness
      → (item.synthetic && is_empty item.id) ≡ false
      → is_empty harness ≡ false
      → Allowed s (choose (record s { confirming = none }) s.confirming item harness)
  unfolding Allowed choose
  choose-Allowed item harness here its full named =
      let entry = item_key (some harness) item.id in
      if_cases (Allowed s)
        (not item.synthetic || has s.screen.known entry || is_pending s.confirming entry)
        (λ e. record {
          item = item;
          typing = typing;
          under_cursor = here;
          its_id = refl;
          its_harness = its;
          choosable = (full, named, e);
        })
        (λ _. tt)

  enter_on-Allowed :
      (item : PickerItem)
      → get_elem? (visible_items s) s.cursor ≡ some item
      → (item.synthetic && is_empty item.id) ≡ false
      → (harness : Option Text) → item.harness ≡ harness
      → Allowed s (elim harness [
        | none ↦ (record s { confirming = none }, no_action)
        | some h ↦
            if is_empty h
            then (record s { confirming = none }, no_action)
            else choose (record s { confirming = none }) s.confirming item h
      ])
  unfolding Allowed
  enter_on-Allowed item here full none its = tt
  enter_on-Allowed item here full (some h) its =
      if_cases (Allowed s) (is_empty h) (λ _. tt) (λ e. choose-Allowed item h here its full e)

  enter-Allowed :
      (o : Option PickerItem)
      → get_elem? (visible_items s) s.cursor ≡ o
      → Allowed s (enter (record s { confirming = none }) s.confirming o)
  unfolding Allowed enter
  enter-Allowed none here = tt
  enter-Allowed (some item) here =
      if_cases (Allowed s) (item.synthetic && is_empty item.id) (λ _. tt)
        (λ e. enter_on-Allowed item here e item.harness refl)

  plain-Allowed : (key : Key) (viewport : ℕ) → Allowed s (apply_plain s key viewport)
  unfolding Allowed apply_plain
  plain-Allowed key viewport =
      if_both (Allowed s) (is_named (codes "return") key)
        (enter-Allowed (get_elem? (visible_items s) s.cursor) refl)
        (if_both (Allowed s) (is_named (codes "up") key) tt (
          if_both (Allowed s) (is_named (codes "down") key) tt (
            if_both (Allowed s) (is_named (codes "backspace") key) tt
              (if_both (Allowed s) (is_typed key) tt tt))))

apply_key-Allowed :
    (s : PickerState) (key : Key) (viewport : ℕ) → Allowed s (apply_key s key viewport)
unfolding Allowed apply_key paste
apply_key-Allowed s key viewport = if_both (Allowed s) (is_named (codes "paste-start") key) tt (
    if_both (Allowed s) (is_named (codes "paste-end") key) tt (
      if_cases (Allowed s) s.pasting (λ _. if_both (Allowed s) (is_typed key) tt tt)
        (λ typing. if_both (Allowed s) (key.ctrl && is_named (codes "c") key) tt (
          if_both (Allowed s) (key.ctrl && is_named (codes "g") key) tt
            (plain-Allowed s typing key viewport)))))

-- A key picks a model only outside a paste, and only the one of the row under the cursor, with the
-- harness of that row: a row that names no harness, or one that only gives instructions, is never
-- picked, and one that was written by hand only if it is known or if the Enter before it asked to
-- confirm just that harness and model.
pub apply_key-IsChoice :
    (s : PickerState) (key : Key) (viewport : ℕ) (id harness : Text)
    → (apply_key s key viewport).1 ≡ picked id harness
    → IsChoice s id harness
unfolding Allowed
apply_key-IsChoice s key viewport id harness e =
    subst (λ a. Allowed s (s, a)) e (apply_key-Allowed s key viewport)
