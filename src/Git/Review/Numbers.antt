-- ===== src/Git/Review/Numbers.antt =====
-- The line numbers that `parseUnifiedDiff` of src/git/review.ts gives.
use codedeck.Common.{
  ℕ, ◌+◌, Text, codes, ◌≡◌, refl, Bool, true, false, Option, none, some, List, [], ◌∷◌, ◌++◌, All,
  All-append, if_both, starts_with, eqb, drop, arith, split_at, subst, sym,
}
use codedeck.Git.Review.{
  ReviewLineType, context, add, del, ReviewLine, ReviewHunk, ReviewFile, Scan, push_hunk, refined,
  flushed, flush_file, begin_file, named, with_line, body_line, in_hunk, hunk_or_body, in_file,
  without_return, scan_line, scan, no_files, parse_unified_diff, hunk_of, ranges_of, Ranges,
  hunk_if, hunk_with, side_name,
}

-- The numbers that a line of each type carries where the two sides stand at `o` and `n`.
abbrev Fits : ReviewLineType → ℕ → ℕ → Option ℕ → Option ℕ → Type 0
Fits context o n old new = (old ≡ some o) × (new ≡ some n)
Fits add o n old new = (old ≡ none) × (new ≡ some n)
Fits del o n old new = (old ≡ some o) × (new ≡ none)

abbrev next_old : ReviewLineType → ℕ → ℕ
next_old add o = o
next_old _ o = o + 1

abbrev next_new : ReviewLineType → ℕ → ℕ
next_new del n = n
next_new _ n = n + 1

-- The lines are numbered without a gap on both sides, from `o` and `n` up to `o'` and `n'`.
abbrev pub Numbered : ℕ → ℕ → List ReviewLine → ℕ → ℕ → Type 0
Numbered o n [] o' n' = (o ≡ o') × (n ≡ n')
Numbered o n (l ∷ lines) o' n' =
    Fits l.type o n l.old_no l.new_no × Numbered (next_old l.type o) (next_new l.type n) lines o' n'

-- The lines are numbered from the starts that the header names.
pub record IsNumbered (h : ReviewHunk) : Type 0 where
  pub end_old : ℕ
  pub end_new : ℕ
  pub numbered : Numbered h.old_start h.new_start h.lines end_old end_new

abbrev pub FileIsNumbered : ReviewFile → Type 0
FileIsNumbered f = All IsNumbered f.hunks

Numbered-snoc :
    (o n : ℕ) (lines : List ReviewLine) (l : ReviewLine) (o' n' : ℕ)
    → Numbered o n lines o' n'
    → Fits l.type o' n' l.old_no l.new_no
    → Numbered o n (lines ++ l ∷ []) (next_old l.type o') (next_new l.type n')
Numbered-snoc o n [] l o' n' (eo, en) h = rw (eo, en) (h, (refl, refl))
Numbered-snoc o n (k ∷ lines) l o' n' (fits, hs) h =
    (fits, Numbered-snoc (next_old k.type o) (next_new k.type n) lines l o' n' hs h)

abbrev HunkRuns : Option ReviewHunk → ℕ → ℕ → Type 0
HunkRuns none o n = Unit
HunkRuns (some h) o n = Numbered h.old_start h.new_start h.lines o n

abbrev CurIsNumbered : Option ReviewFile → Type 0
CurIsNumbered none = Unit
CurIsNumbered (some f) = FileIsNumbered f

record Runs (s : Scan) : Type 0 where
  files : All FileIsNumbered s.files
  cur : CurIsNumbered s.cur
  hunk : HunkRuns s.hunk s.old_no s.new_no

push_hunk-IsNumbered :
    (f : ReviewFile) (h : Option ReviewHunk) (o n : ℕ)
    → FileIsNumbered f
    → HunkRuns h o n
    → FileIsNumbered (push_hunk h f)
push_hunk-IsNumbered f none o n hf hh = hf
push_hunk-IsNumbered f (some h) o n hf hh =
    All-append IsNumbered f.hunks (h ∷ []) hf
      (record { end_old = o; end_new = n; numbered = hh }, tt)

refined-hunks : (old new : Option Text) (f : ReviewFile) → (refined old new f).hunks ≡ f.hunks
refined-hunks old new f = ground arith

named-hunks : (old : Option Text) (new : Text) (f : ReviewFile) → (named old new f).hunks ≡ f.hunks
named-hunks none new f = refl
named-hunks (some old) new f = ground arith

flushed-IsNumbered :
    (s : Scan) (cur : Option ReviewFile)
    → All FileIsNumbered s.files
    → CurIsNumbered cur
    → HunkRuns s.hunk s.old_no s.new_no
    → All FileIsNumbered (flushed s cur)
flushed-IsNumbered s none hs hc hh = hs
flushed-IsNumbered s (some f) hs hc hh = All-append FileIsNumbered s.files _ hs (
  subst (All IsNumbered) (sym (refined-hunks s.old_name s.new_name (push_hunk s.hunk f)))
      (push_hunk-IsNumbered f s.hunk s.old_no s.new_no hc hh),
  tt,
)

flush_file-Runs : (s : Scan) → Runs s → Runs (flush_file s)
unfolding flush_file
flush_file-Runs s r = record {
  files = flushed-IsNumbered s s.cur r.files r.cur r.hunk;
  cur = tt;
  hunk = tt;
}

begin_file-Runs :
    (parse_json : Text → Option Text) (s : Scan) (rest : Text)
    → Runs s
    → Runs (begin_file parse_json s rest)
unfolding begin_file
begin_file-Runs parse_json s rest r =
    let r' = flush_file-Runs s r in record { files = r'.files; cur = tt; hunk = r'.hunk }

-- A hunk with one more line that fits.
grown-Runs :
    (s : Scan) (h : ReviewHunk) (l : ReviewLine)
    → Runs s
    → Numbered h.old_start h.new_start h.lines s.old_no s.new_no
    → Fits l.type s.old_no s.new_no l.old_no l.new_no
    → Runs (record s {
      hunk = some (with_line h l);
      old_no = next_old l.type s.old_no;
      new_no = next_new l.type s.new_no;
    })
grown-Runs s h l r hh fits = record {
  files = r.files;
  cur = r.cur;
  hunk = Numbered-snoc h.old_start h.new_start h.lines l s.old_no s.new_no hh fits;
}

body_line-Runs :
    (s : Scan) (h : ReviewHunk) (line : Text)
    → Runs s
    → Numbered h.old_start h.new_start h.lines s.old_no s.new_no
    → Runs (body_line s h line)
unfolding body_line
body_line-Runs s h [] r hh = r
body_line-Runs s h (marker ∷ text) r hh =
    if_both Runs (eqb marker b' ') (grown-Runs s h _ r hh (refl, refl)) (
      if_both Runs (eqb marker b'+') (grown-Runs s h _ r hh (refl, refl))
        (if_both Runs (eqb marker b'-') (grown-Runs s h _ r hh (refl, refl)) r))

in_hunk-Runs :
    (s : Scan) (line : Text) (o : Option ReviewHunk)
    → Runs s
    → HunkRuns o s.old_no s.new_no
    → Runs (in_hunk s line o)
unfolding in_hunk
in_hunk-Runs s line none r hh = r
in_hunk-Runs s line (some h) r hh = body_line-Runs s h line r hh

abbrev IsFresh : Option ReviewHunk → Type 0
IsFresh none = Unit
IsFresh (some h) = h.lines ≡ []

hunk_if-IsFresh : (line : Text) (r : Ranges) (b : Bool) → IsFresh (hunk_if line r b)
hunk_if-IsFresh line r true = tt
hunk_if-IsFresh line r false = refl

hunk_with-IsFresh : (line : Text) (o : Option Ranges) → IsFresh (hunk_with line o)
hunk_with-IsFresh line none = tt
hunk_with-IsFresh line (some r) = hunk_if-IsFresh line r _

hunk_of-IsFresh : (line : Text) → IsFresh (hunk_of line)
unfolding hunk_of
hunk_of-IsFresh line = hunk_with-IsFresh line (ranges_of line)

hunk_or_body-Runs :
    (s : Scan) (f : ReviewFile) (line : Text) (o : Option ReviewHunk)
    → Runs s
    → FileIsNumbered f
    → IsFresh o
    → Runs (hunk_or_body s f line o)
hunk_or_body-Runs s f line none r hf fresh = in_hunk-Runs s line s.hunk r r.hunk
hunk_or_body-Runs s f line (some h) r hf fresh = record {
  files = r.files;
  cur = push_hunk-IsNumbered f s.hunk s.old_no s.new_no hf r.hunk;
  hunk = rw fresh (refl, refl);
}

module _ (parse_json : Text → Option Text) where
  in_file-Runs :
      (s : Scan) (line : Text) (cur : Option ReviewFile)
      → Runs s
      → CurIsNumbered cur
      → Runs (in_file parse_json s line cur)
  unfolding in_file
  in_file-Runs s line none r hc = r
  in_file-Runs s line (some f) r hc =
      if_both Runs (starts_with (codes "Binary files ") line)
        (record { files = r.files; cur = hc; hunk = r.hunk })
        (if_both Runs (starts_with (codes "--- ") line)
          (record { files = r.files; cur = r.cur; hunk = r.hunk })
          (if_both Runs (starts_with (codes "+++ ") line)
            (record {
              files = r.files;
              cur =
                  subst (All IsNumbered)
                    (sym (named-hunks s.old_name (side_name parse_json line) f)) hc;
              hunk = r.hunk;
            })
            (hunk_or_body-Runs s f line (hunk_of line) r hc (hunk_of-IsFresh line))))

  scan_line-Runs : (s : Scan) (line : Text) → Runs s → Runs (scan_line parse_json s line)
  unfolding scan_line
  scan_line-Runs s line r =
      if_both Runs (starts_with (codes "diff --git ") line)
        (begin_file-Runs parse_json s (drop 11 line) r) (in_file-Runs s line s.cur r r.cur)

  scan-Runs : (lines : List Text) (s : Scan) → Runs s → Runs (scan parse_json s lines)
  unfolding scan
  scan-Runs [] s r = r
  scan-Runs (raw ∷ lines) s r =
      scan-Runs lines (scan_line parse_json s (without_return raw))
        (scan_line-Runs s (without_return raw) r)

-- Whatever the patch is, the lines of every hunk are numbered from the starts that its header
-- names: a context line takes the next number of both sides, an added line that of the new side
-- alone, and a deleted line that of the old side alone.
pub parse_unified_diff-IsNumbered :
    (parse_json : Text → Option Text) (patch : Text)
    → All FileIsNumbered (parse_unified_diff parse_json patch)
unfolding parse_unified_diff
parse_unified_diff-IsNumbered parse_json patch =
    (flush_file-Runs _ (
      scan-Runs parse_json (split_at b'\n' patch) no_files
        (record { files = tt; cur = tt; hunk = tt }))).files
