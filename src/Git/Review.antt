-- ===== src/Git/Review.antt =====
-- `parseUnifiedDiff` of src/git/review.ts: the files, hunks and numbered lines of a patch.
-- JSON.parse on a quoted path is the argument `parse_json`; `none` stands for its error. A number
-- is natural: no digits are lost to a float.
pub mod Numbers
use codedeck.Common.{
  length, reverse, trim, ends_with, drop_right, ℕ, ◌+◌, Text, codes, Bool, true, false, Option,
  none, some, List, [], ◌∷◌, ◌++◌, ◌==◌, ◌&&◌, ◌||◌, not, any, eqb, drop, starts_with, is_empty,
  is_digit, digits_value, split_at, if◌then◌else◌,
}

pub data ReviewLineType : Type 0 where
  context add del : ReviewLineType

pub record ReviewLine : Type 0 where
  pub type : ReviewLineType
  pub old_no : Option ℕ
  pub new_no : Option ℕ
  pub text : Text

pub record ReviewHunk : Type 0 where
  pub header : Text
  pub old_start : ℕ
  pub old_count : ℕ
  pub new_start : ℕ
  pub new_count : ℕ
  pub lines : List ReviewLine

pub data ReviewFileStatus : Type 0 where
  modified added deleted renamed : ReviewFileStatus

pub record ReviewFile : Type 0 where
  pub path : Text
  pub old_path : Text
  pub status : ReviewFileStatus
  pub hunks : List ReviewHunk
  pub binary : Bool
  pub too_large : Bool

-- The digits in front, and what follows them.
abbrev span_digits : Text → Text × Text
span_digits [] = ([], [])
span_digits (c ∷ s) =
    let rest = span_digits s in if is_digit c then (c ∷ rest.0, rest.1) else ([], c ∷ s)

abbrev pub and_then {ℓ κ} : {A : Type ℓ} {B : Type κ} → Option A → (A → Option B) → Option B
and_then none k = none
and_then (some a) k = k a

-- `\d+`
unfoldable pub number : Text → Option (ℕ × Text)
unfolding digits_value
number s =
    let cut = span_digits s in if is_empty cut.0 then none else some (digits_value 0 cut.0, cut.1)

-- `(?:,(\d+))?`, where a count that is missing is 1
unfoldable pub count : Text → Option (ℕ × Text)
unfolding number
count s = if starts_with (codes ",") s then number (drop 1 s) else some (1, s)

abbrev pub literal : Text → Text → Option Text
literal p s = let rest = drop (length p) s in if starts_with p s then some rest else none

-- the line terminators, which `.` does not match
abbrev is_terminator : ℕ → Bool
is_terminator c = eqb c 10 || eqb c 13 || eqb c 8232 || eqb c 8233

-- A start and its count.
unfoldable pub range_of : Text → Option ((ℕ × ℕ) × Text)
unfolding number count
range_of s = and_then (number s) (λ a. and_then (count a.1) (λ b. some ((a.0, b.0), b.1)))

abbrev pub Ranges : Type 0
Ranges = (ℕ × ℕ) × (ℕ × ℕ) × Text

-- The two ranges of a header and what follows its second "@@".
unfoldable pub ranges_of : Text → Option Ranges
unfolding range_of
ranges_of line = and_then (literal (codes "@@ -") line) (λ a. and_then (range_of a) (λ old.
    and_then (literal (codes " +") old.1) (λ b.
      and_then (range_of b)
        (λ new. and_then (literal (codes " @@") new.1) (λ rest. some (old.0, new.0, rest))))))

abbrev pub hunk_if : Text → Ranges → Bool → Option ReviewHunk
hunk_if line r true = none
hunk_if line ((old_start, old_count), (new_start, new_count), rest) false = some (record {
  header = line;
  old_start = old_start;
  old_count = old_count;
  new_start = new_start;
  new_count = new_count;
  lines = [];
})

abbrev pub hunk_with : Text → Option Ranges → Option ReviewHunk
hunk_with line none = none
hunk_with line (some r) = hunk_if line r (any is_terminator r.2)

-- HUNK_RE
unfoldable pub hunk_of : Text → Option ReviewHunk
unfolding ranges_of
hunk_of line = hunk_with line (ranges_of line)

abbrev dev_null : Text
dev_null = codes "/dev/null"

-- The two sides share "/dev/null", which names no file.
unfoldable pub strip_prefix : Text → Text
strip_prefix p =
    if p == dev_null
    then p
    else if starts_with (codes "a/") p || starts_with (codes "b/") p
    then drop 2 p
    else p

-- The rest of a quoted token; an escaped character does not close it.
abbrev quoted : Bool → Text → Text × Text
quoted escaped [] = ([], [])
quoted escaped (c ∷ s) =
    let rest = quoted (not escaped && eqb c b'\\') s in
    if not escaped && eqb c b'"' then (c ∷ [], s) else (c ∷ rest.0, rest.1)

abbrev plain : Text → Text × Text
plain [] = ([], [])
plain (c ∷ s) = let rest = plain s in if eqb c 32 then ([], c ∷ s) else (c ∷ rest.0, rest.1)

abbrev token_at : Text → Option (Text × Text)
token_at [] = none
token_at (c ∷ s) =
    let rest = quoted false s in
    if eqb c b'"' then some (c ∷ rest.0, rest.1) else some (plain (c ∷ s))

unfoldable pub next_token : Text → Option (Text × Text)
next_token [] = none
next_token (c ∷ s) = let rest = next_token s in if eqb c 32 then rest else token_at (c ∷ s)

unfoldable pub split_diff_git_args : Text → Option (Text × Text)
unfolding next_token
split_diff_git_args rest =
    and_then (next_token rest) (λ a. and_then (next_token a.1) (λ b. some (a.0, b.0)))

-- The loop's variables. The open hunk is the last one of the file: it joins `hunks` when the next
-- one begins or the file ends.
pub record Scan : Type 0 where
  pub files : List ReviewFile
  pub cur : Option ReviewFile
  pub hunk : Option ReviewHunk
  pub old_no : ℕ
  pub new_no : ℕ
  pub old_name : Option Text
  pub new_name : Option Text

abbrev pub push_hunk : Option ReviewHunk → ReviewFile → ReviewFile
push_hunk none f = f
push_hunk (some h) f = record f { hunks = f.hunks ++ h ∷ [] }

abbrev is_null : Option Text → Bool
is_null none = false
is_null (some name) = name == dev_null

abbrev pub refined : Option Text → Option Text → ReviewFile → ReviewFile
refined old new f =
    if is_null old && not (is_null new)
    then record f { status = added }
    else if is_null new && not (is_null old)
    then record f { status = deleted }
    else f

abbrev pub flushed : Scan → Option ReviewFile → List ReviewFile
flushed s none = s.files
flushed s (some f) = s.files ++ refined s.old_name s.new_name (push_hunk s.hunk f) ∷ []

unfoldable pub flush_file : Scan → Scan
flush_file s = record s {
  files = flushed s s.cur;
  cur = none;
  hunk = none;
  old_name = none;
  new_name = none;
}

abbrev pub named : Option Text → Text → ReviewFile → ReviewFile
named none new f = f
named (some old) new f =
    if not (old == dev_null) && not (new == dev_null) && not (old == new)
    then record f { old_path = old; path = new; status = renamed }
    else if not (new == dev_null)
    then record f { path = new }
    else f

abbrev pub open_hunk : ReviewFile → Scan → ReviewHunk → Scan
open_hunk f s h = record s {
  cur = some (push_hunk s.hunk f);
  hunk = some h;
  old_no = h.old_start;
  new_no = h.new_start;
}

abbrev pub with_line : ReviewHunk → ReviewLine → ReviewHunk
with_line h l = record h { lines = h.lines ++ l ∷ [] }

-- A line of a hunk's body, by its first character.
unfoldable pub body_line : Scan → ReviewHunk → Text → Scan
body_line s h [] = s
body_line s h (marker ∷ text) =
    if eqb marker b' '
    then record s {
      hunk = some (
          with_line h (record {
            type = context;
            old_no = some s.old_no;
            new_no = some s.new_no;
            text = text;
          }));
      old_no = s.old_no + 1;
      new_no = s.new_no + 1;
    }
    else if eqb marker b'+'
    then record s {
      hunk =
          some (
            with_line h
              (record { type = add; old_no = none; new_no = some s.new_no; text = text }));
      new_no = s.new_no + 1;
    }
    else if eqb marker b'-'
    then record s {
      hunk =
          some (
            with_line h
              (record { type = del; old_no = some s.old_no; new_no = none; text = text }));
      old_no = s.old_no + 1;
    }
    else s

-- A line that begins no hunk.
unfoldable pub in_hunk : Scan → Text → Option ReviewHunk → Scan
unfolding body_line
in_hunk s line none = s
in_hunk s line (some h) = body_line s h line

abbrev pub hunk_or_body : Scan → ReviewFile → Text → Option ReviewHunk → Scan
hunk_or_body s f line (some h) = open_hunk f s h
hunk_or_body s f line none = in_hunk s line s.hunk

-- The line without its carriage return.
abbrev pub without_return : Text → Text
without_return raw = if ends_with (codes "\r") raw then drop_right 1 raw else raw

abbrev pub no_files : Scan
no_files = record {
  files = [];
  cur = none;
  hunk = none;
  old_no = 0;
  new_no = 0;
  old_name = none;
  new_name = none;
}

module _ (parse_json : Text → Option Text) where
  abbrev json_or : Text → Option Text → Text
  json_or t none = drop_right 1 (drop 1 t)
  json_or t (some path) = path

  unfoldable pub unquote_git_path : Text → Text
  unquote_git_path raw =
      let t = trim raw in
      if starts_with (codes "\"") t && ends_with (codes "\"") t then json_or t (parse_json t) else t

  abbrev header_args : Option (Text × Text) → Text × Text
  header_args none = (codes "unknown", codes "unknown")
  header_args (some (a, b)) = (strip_prefix (unquote_git_path a), strip_prefix (unquote_git_path b))

  unfoldable pub begin_file : Scan → Text → Scan
  unfolding flush_file split_diff_git_args unquote_git_path strip_prefix
  begin_file s rest =
      let args = header_args (split_diff_git_args rest) in
      record (flush_file s) {
        cur = some (record {
          path = args.1;
          old_path = args.0;
          status = modified;
          hunks = [];
          binary = false;
          too_large = false;
        });
      }

  abbrev first_field : List Text → Text
  first_field [] = []
  first_field (t ∷ ts) = t

  -- The name behind "--- " or "+++ ".
  unfoldable pub side_name : Text → Text
  unfolding strip_prefix unquote_git_path
  side_name line = strip_prefix (unquote_git_path (first_field (split_at b'\t' (drop 4 line))))

  unfoldable pub in_file : Scan → Text → Option ReviewFile → Scan
  unfolding side_name hunk_of in_hunk
  in_file s line none = s
  in_file s line (some f) =
      if starts_with (codes "Binary files ") line
      then record s { cur = some (record f { binary = true }) }
      else if starts_with (codes "--- ") line
      then record s { old_name = some (side_name line) }
      else if starts_with (codes "+++ ") line
      then record s {
        new_name = some (side_name line);
        cur = some (named s.old_name (side_name line) f);
      }
      else hunk_or_body s f line (hunk_of line)

  unfoldable pub scan_line : Scan → Text → Scan
  unfolding begin_file in_file
  scan_line s line =
      if starts_with (codes "diff --git ") line
      then begin_file s (drop 11 line)
      else in_file s line s.cur

  unfoldable pub scan : Scan → List Text → Scan
  unfolding scan_line
  scan s [] = s
  scan s (raw ∷ lines) = scan (scan_line s (without_return raw)) lines

  unfoldable pub parse_unified_diff : Text → List ReviewFile
  unfolding scan flush_file
  parse_unified_diff patch = (flush_file (scan no_files (split_at b'\n' patch))).files
