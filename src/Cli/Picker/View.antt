-- ===== src/Cli/Picker/View.antt =====
-- `applyKey` and `reanchor` of src/cli/picker-state.ts: the cursor, the rows and the viewport.
use codedeck.Common.{
  if_both, ℕ, ◌+◌, ◌-◌, ◌≤◌, ◌<◌, min, ◌≡◌, refl, Bool, Option, none, some, List, [], ◌∷◌, ◌++◌,
  ◌&&◌, length, arith, get_elem?, Bool-cases, inl, inr, codes, Text, is_empty, if◌then◌else◌,
}
use codedeck.Cli.Picker.{
  drop_last, no_action, PickerItem, PickerState, Key, PickerAction, visible_items, or_written, hits,
  scrolled, enter, choose, apply_key, apply_plain, paste, with_filter, is_named, is_typed,
}

-- The cursor is on a row, and the viewport shows that row.
abbrev pub IsInView : ℕ → PickerState → Type 0
IsInView viewport s =
    (s.cursor < length (visible_items s)) × (s.offset ≤ s.cursor) × (s.cursor < s.offset + viewport)

-- There always is a row.
rows_written : (s : PickerState) (items : List PickerItem) → 0 < length (or_written s items)
rows_written s [] = omega arith
rows_written s (i ∷ items) = omega arith

visible_items-nonempty : (s : PickerState) → 0 < length (visible_items s)
unfolding visible_items
visible_items-nonempty s = rows_written s (hits s)

-- The rows depend on the screen and the filter alone.
same_rows :
    (s : PickerState) (cursor offset : ℕ) (pasting : Bool) (confirming : Option Text)
    → visible_items
        (record s { cursor = cursor; offset = offset; pasting = pasting; confirming = confirming })
      ≡ visible_items s
unfolding visible_items hits
same_rows s cursor offset pasting confirming = refl

pub scrolled-IsInView :
    (viewport : ℕ) (s : PickerState) (cursor : ℕ)
    → 0 < viewport
    → cursor < length (visible_items s)
    → IsInView viewport (scrolled s cursor viewport)
unfolding scrolled visible_items hits
scrolled-IsInView viewport s cursor h c = (c, omega arith, omega arith)

top-IsInView :
    (viewport : ℕ) (filter : Text) (s : PickerState)
    → 0 < viewport
    → IsInView viewport (with_filter filter s)
top-IsInView viewport filter s h =
    (visible_items-nonempty (with_filter filter s), omega arith, omega arith)

paste-IsInView :
    (viewport : ℕ) (s : PickerState) (key : Key)
    → 0 < viewport
    → IsInView viewport s
    → IsInView viewport (paste s key).0
unfolding paste
paste-IsInView viewport s key h v = elim (Bool-cases (is_typed key)) [
  | inl e ↦ rw e (top-IsInView viewport _ s h)
  | inr e ↦ rw e v
]

InView : ℕ → PickerState × PickerAction → Type 0
InView viewport r = IsInView viewport r.0

choose-IsInView :
    (viewport : ℕ) (s : PickerState) (pending : Option Text) (item : PickerItem) (harness : Text)
    → IsInView viewport s
    → InView viewport (choose s pending item harness)
unfolding InView choose visible_items hits
choose-IsInView viewport s pending item harness v = if_both (InView viewport) _ v v

enter_on-IsInView :
    (viewport : ℕ) (s : PickerState) (pending : Option Text) (item : PickerItem)
    → IsInView viewport s
    → (harness : Option Text)
    → InView viewport (elim harness [
      | none ↦ (s, no_action)
      | some h ↦ if is_empty h then (s, no_action) else choose s pending item h
    ])
unfolding InView
enter_on-IsInView viewport s pending item v none = v
enter_on-IsInView viewport s pending item v (some h) =
    if_both (InView viewport) _ v (choose-IsInView viewport s pending item h v)

enter-IsInView :
    (viewport : ℕ) (s : PickerState) (pending : Option Text) (o : Option PickerItem)
    → IsInView viewport s
    → InView viewport (enter s pending o)
unfolding InView enter
enter-IsInView viewport s pending none v = v
enter-IsInView viewport s pending (some item) v =
    if_both (InView viewport) _ v (enter_on-IsInView viewport s pending item v item.harness)

cleared-IsInView :
    (viewport : ℕ) (s : PickerState)
    → IsInView viewport s
    → IsInView viewport (record s { confirming = none })
unfolding visible_items hits
cleared-IsInView viewport s v = v

moved_down :
    (viewport : ℕ) (s : PickerState)
    → 0 < viewport
    → let c : PickerState = record s { confirming = none } in
      IsInView viewport (scrolled c (min (length (visible_items s) - 1) (c.cursor + 1)) viewport)
unfolding visible_items hits
moved_down viewport s h =
    let c : PickerState = record s { confirming = none } in
    scrolled-IsInView viewport c (min (length (visible_items s) - 1) (c.cursor + 1)) h
      (omega (arith, visible_items-nonempty s))

moved_up :
    (viewport : ℕ) (s : PickerState)
    → 0 < viewport
    → IsInView viewport s
    → IsInView viewport (scrolled s (s.cursor - 1) viewport)
moved_up viewport s h v = scrolled-IsInView viewport s _ h (omega (arith, v.0))

plain-IsInView :
    (viewport : ℕ) (s : PickerState) (key : Key)
    → 0 < viewport
    → IsInView viewport s
    → InView viewport (apply_plain s key viewport)
unfolding InView apply_plain
plain-IsInView viewport s key h v =
    let c : PickerState = record s { confirming = none } in
    let cv = cleared-IsInView viewport s v in
    if_both (InView viewport) (is_named (codes "return") key)
      (enter-IsInView viewport c s.confirming (get_elem? (visible_items s) s.cursor) cv)
      (if_both (InView viewport) (is_named (codes "up") key) (moved_up viewport c h cv) (
        if_both (InView viewport) (is_named (codes "down") key) (moved_down viewport s h) (
          if_both (InView viewport) (is_named (codes "backspace") key)
            (top-IsInView viewport (drop_last c.filter) c h)
            (if_both (InView viewport) (is_typed key)
              (top-IsInView viewport (c.filter ++ key.sequence) c h) cv))))

-- In a viewport of at least one row, after every key the cursor is on one of the rows that the new
-- state lists, and that row is inside the viewport, where both held before the key.
pub apply_key-IsInView :
    (viewport : ℕ) (s : PickerState) (key : Key)
    → 0 < viewport
    → IsInView viewport s
    → IsInView viewport (apply_key s key viewport).0
unfolding apply_key visible_items hits InView
apply_key-IsInView viewport s key h v =
    if_both (InView viewport) (is_named (codes "paste-start") key) v (
      if_both (InView viewport) (is_named (codes "paste-end") key) v (
        if_both (InView viewport) s.pasting (paste-IsInView viewport s key h v) (
          if_both (InView viewport) (key.ctrl && is_named (codes "c") key) v (
            if_both (InView viewport) (key.ctrl && is_named (codes "g") key) v
              (plain-IsInView viewport s key h v)))))
