-- ===== src/Cli/Picker/Typed.antt =====
-- `itemKey` and `parseFreeText` of src/cli/picker-state.ts: a key that is typed.
use codedeck.Common.{
  ◌≡◌, refl, ap, ◌∙◌, Bool, true, false, some, List, [], ◌∷◌, ◌++◌, arith, codes, Text, is_empty,
  trim, to_lower, any, eqb,
}
use codedeck.Cli.Picker.{has, item_key, cut_at_colon, parse_free_text, parse_cut}

abbrev pub has_colon : Text → Bool
has_colon t = any (λ c. eqb c b':') t

cut-append :
    (h id : Text) → has_colon h ≡ false → cut_at_colon (h ++ codes ":" ++ id) ≡ some (h, id)
unfolding cut_at_colon
cut-append [] id e = refl
cut-append (c ∷ h) id e = ground (arith, cut-append h id)

-- Typing the key of a harness and a model names just these two, where the harness is one of the
-- screen's, without a colon, and neither has white space around it or, the harness, a capital; the
-- model may hold colons.
pub parse-item_key :
    (harnesses : List Text) (h id : Text)
    → has harnesses h ≡ true
    → is_empty h ≡ false
    → has_colon h ≡ false
    → to_lower (trim h) ≡ h
    → is_empty id ≡ false
    → trim id ≡ id
    → parse_free_text (item_key (some h) id) harnesses ≡ some (record { harness = h; id = id })
unfolding parse_free_text item_key
parse-item_key harnesses h id known named plain lower full trimmed =
    ap (parse_cut harnesses) (cut-append h id plain) ∙ rw (named, lower, trimmed, full, known) refl
