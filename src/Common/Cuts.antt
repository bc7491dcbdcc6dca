-- ===== src/Common/Cuts.antt =====
-- Ends and pieces of texts, and decimal digits.
use Prim.Native.Nat.{ℕ, ◌+◌, ◌-◌, ◌*◌}
use mathlib.Core.Bool.{Bool, ◌&&◌}
use mathlib.Core.List.{List, [], ◌∷◌, ◌++◌, reverse}
use codedeck.Common.Tests.{leb, eqb, if◌then◌else◌}
use codedeck.Common.Lists.{length, take}
use codedeck.Common.Texts.{Text, starts_with}

-- `s.endsWith(p)`
abbrev pub ends_with : Text → Text → Bool
ends_with p s = starts_with (reverse p) (reverse s)

-- `s.slice(0, -n)`
abbrev pub drop_right : ℕ → Text → Text
drop_right n s = take (length s - n) s

abbrev pub head_piece : Text → List Text → List Text
head_piece t [] = t ∷ []
head_piece t (p ∷ ps) = (t ++ p) ∷ ps

-- `s.split(c)` for a separator of one character
unfoldable pub split_at : ℕ → Text → List Text
split_at c [] = [] ∷ []
split_at c (d ∷ s) =
    let rest = split_at c s in if eqb d c then [] ∷ rest else head_piece (d ∷ []) rest

-- The value of decimal digits, in front of `n`.
unfoldable pub digits_value : ℕ → Text → ℕ
digits_value n [] = n
digits_value n (c ∷ s) = digits_value (n * 10 + (c - 48)) s

abbrev pub is_digit : ℕ → Bool
is_digit c = leb b'0' c && leb c b'9'
