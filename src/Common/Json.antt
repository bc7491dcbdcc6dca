-- ===== src/Common/Json.antt =====
-- `JSON.stringify` of a string: quotes, backslashes, control characters and lone surrogates are
-- escaped.
use Prim.Native.Nat.{ℕ, ◌+◌, ◌/◌, ◌%◌}
use mathlib.Core.Bool.{Bool, false, ◌&&◌, ◌||◌, not}
use mathlib.Core.List.{[], ◌∷◌, ◌++◌}
use codedeck.Common.Tests.{leb, ltb, eqb, if◌then◌else◌}
use codedeck.Common.Texts.{Text, codes}

abbrev hex_digit : ℕ → ℕ
hex_digit n = if ltb n 10 then 48 + n else 87 + n

-- `\uXXXX`
abbrev unicode_escape : ℕ → Text
unicode_escape c =
    codes "\\u"
    ++ (hex_digit (c / 4096)
        ∷ hex_digit (c / 256 % 16)
        ∷ hex_digit (c / 16 % 16)
        ∷ hex_digit (c % 16)
        ∷ [])

abbrev is_high : ℕ → Bool
is_high c = leb 55296 c && leb c 56319

abbrev is_low : ℕ → Bool
is_low c = leb 56320 c && leb c 57343

abbrev starts_low : Text → Bool
starts_low [] = false
starts_low (c ∷ s) = is_low c

escaped : ℕ → Text
escaped c =
    if eqb c 34
    then codes "\\\""
    else if eqb c 92
    then codes "\\\\"
    else if eqb c 8
    then codes "\\b"
    else if eqb c 9
    then codes "\\t"
    else if eqb c 10
    then codes "\\n"
    else if eqb c 12
    then codes "\\f"
    else if eqb c 13
    then codes "\\r"
    else if ltb c 32 || is_high c || is_low c
    then unicode_escape c
    else c ∷ []

-- `paired` says that the unit is the second half of a surrogate pair.
escape_from : Bool → Text → Text
unfolding escaped
escape_from paired [] = []
escape_from paired (c ∷ s) =
    let pair = not paired && is_high c && starts_low s in
    let rest = escape_from pair s in if paired || pair then c ∷ rest else escaped c ++ rest

unfoldable pub json_string : Text → Text
unfolding escape_from
json_string s = codes "\"" ++ escape_from false s ++ codes "\""
