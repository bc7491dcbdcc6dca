-- ===== src/Store/Paths.antt =====
-- `normalizeRepoPath` of src/store/claims.ts over the POSIX functions of node:path. An absolute
-- path is the list of its segments; `here` is the working directory of the daemon.
use codedeck.Common.{
  ℕ, Text, codes, Bool, false, Option, none, some, List, [], ◌∷◌, ◌++◌, ◌==◌, ◌||◌, eqb, map,
  reverse, is_empty, if◌then◌else◌,
}

abbrev slash : ℕ
slash = b'/'

-- `value.replaceAll("\\", "/")`
abbrev to_slash : ℕ → ℕ
to_slash c = if eqb c 92 then slash else c

unfoldable pub to_slashes : Text → Text
to_slashes = map to_slash

-- `split("/")`, with the code units of the part at hand in reverse
split_from : Text → Text → List Text
split_from cur [] = reverse cur ∷ []
split_from cur (c ∷ s) =
    let closed = reverse cur ∷ split_from [] s in
    let longer = split_from (c ∷ cur) s in if eqb c slash then closed else longer

unfoldable pub split_slash : Text → List Text
unfolding split_from
split_slash s = split_from [] s

abbrev pop : List Text → List Text
pop [] = []
pop (x ∷ xs) = xs

-- One segment of a path on the stack of those before it, the last on top; `..` stops at the root.
unfoldable pub resolve_part : List Text → Text → List Text
resolve_part stack part =
    if is_empty part || part == codes "."
    then stack
    else if part == codes ".."
    then pop stack
    else part ∷ stack

unfoldable pub resolve_parts : List Text → List Text → List Text
unfolding resolve_part
resolve_parts stack [] = stack
resolve_parts stack (part ∷ parts) = resolve_parts (resolve_part stack part) parts

abbrev is_absolute : Text → Bool
is_absolute [] = false
is_absolute (c ∷ s) = eqb c slash

-- `path.resolve(base, value)`, with both stacks in reverse
unfoldable pub resolve : List Text → Text → List Text
unfolding resolve_parts split_slash
resolve base value = resolve_parts (if is_absolute value then [] else base) (split_slash value)

-- `path.relative(from, to)`: `none` where it begins with `..`
unfoldable pub relative : List Text → List Text → Option (List Text)
relative [] to = some to
relative (f ∷ from) [] = none
relative (f ∷ from) (t ∷ to) = if f == t then relative from to else none

unfoldable pub join_slash : List Text → Text
join_slash [] = []
join_slash (p ∷ []) = p
join_slash (p ∷ q ∷ ps) = p ++ (slash ∷ join_slash (q ∷ ps))

or_dot : Option (List Text) → Option Text
unfolding join_slash
or_dot none = none
or_dot (some []) = some (codes ".")
or_dot (some (p ∷ ps)) = some (join_slash (p ∷ ps))

-- `none` stands for the error INVALID_PATH.
unfoldable pub normalize_repo_path : List Text → Text → Text → Option Text
unfolding resolve relative or_dot to_slashes
normalize_repo_path here value root =
    let root_path = resolve here (to_slashes root) in
    let candidate = resolve root_path (to_slashes value) in
    or_dot (relative (reverse root_path) (reverse candidate))
