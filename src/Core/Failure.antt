-- ===== src/Core/Failure.antt =====
-- src/core/errors.ts: the failure taxonomy and the exit codes of `codedeck run`.
-- The signatures are regular expressions without nesting: alternatives of pieces, each a literal
-- or a run of white space, tried at every position of the text in lower case.
pub mod Laws
use codedeck.Common.{
  ℕ, zero, suc, ◌+◌, ◌/◌, ◌%◌, Text, codes, Bool, true, false, Option, none, some, List, [], ◌∷◌,
  ◌++◌, ◌&&◌, ◌||◌, not, ◌==◌, eqb, ltb, take, trim, to_lower, is_empty, is_space, get_or,
  if◌then◌else◌,
}

pub data FailureBlame : Type 0 where
  harness task infra : FailureBlame

pub data FailureCode : Type 0 where
  harness_crash task_error spawn_failed timeout shutdown store_busy unknown : FailureCode

pub record FailureInfo : Type 0 where
  pub code : FailureCode
  pub blame : FailureBlame
  pub retryable : Bool
  pub reason : Option Text
  pub detail : Option Text
  pub where_in : Option Text
  pub signal : Option Text

pub data Piece : Type 0 where
  lit : Text → Piece
  spaces : Piece

-- The text behind a literal prefix.
strip_prefix : Text → Text → Option Text
strip_prefix [] s = some s
strip_prefix (p ∷ ps) [] = none
strip_prefix (p ∷ ps) (c ∷ s) = if eqb p c then strip_prefix ps s else none

skip_spaces : Text → Text
skip_spaces [] = []
skip_spaces (c ∷ s) = let rest = skip_spaces s in if is_space c then rest else c ∷ s

-- `\s+`: at least one.
strip_spaces : Text → Option Text
unfolding skip_spaces
strip_spaces [] = none
strip_spaces (c ∷ s) = if is_space c then some (skip_spaces s) else none

match_pieces : List Piece → Option Text → Bool
unfolding strip_prefix strip_spaces
match_pieces ps none = false
match_pieces [] (some s) = true
match_pieces (lit p ∷ ps) (some s) = match_pieces ps (strip_prefix p s)
match_pieces (spaces ∷ ps) (some s) = match_pieces ps (strip_spaces s)

match_any : List (List Piece) → Text → Bool
unfolding match_pieces
match_any [] s = false
match_any (r ∷ rs) s = match_pieces r (some s) || match_any rs s

search_text : List (List Piece) → Text → Bool
unfolding match_any
search_text rs [] = match_any rs []
search_text rs (c ∷ s) = match_any rs (c ∷ s) || search_text rs s

-- `pattern.test(text)` under the flag `i`
unfoldable pub test_pattern : List (List Piece) → Text → Bool
unfolding search_text
test_pattern rs s = search_text rs (to_lower s)

abbrev literal : Text → List Piece
literal t = lit t ∷ []

abbrev pub harness_crash_patterns : List (List (List Piece) × Text)
harness_crash_patterns =
    (
      (lit (codes "unhandled") ∷ spaces ∷ lit (codes "rejection") ∷ [])
          ∷ (lit (codes "unhandled") ∷ spaces ∷ lit (codes "promise") ∷ [])
          ∷ [],
      codes "unhandled_rejection",
    )
    ∷ (
      (lit (codes "unhandled") ∷ spaces ∷ lit (codes "exception") ∷ []) ∷ [],
      codes "unhandled_exception",
    )
    ∷ (literal (codes "segmentation fault") ∷ [], codes "segfault")
    ∷ (
      (lit (codes "heap")
            ∷ spaces
            ∷ lit (codes "out")
            ∷ spaces
            ∷ lit (codes "of")
            ∷ spaces
            ∷ lit (codes "memory")
            ∷ [])
          ∷ literal (codes "fatal error:")
          ∷ [],
      codes "v8_fatal",
    )
    ∷ (literal (codes "epipe") ∷ [], codes "EPIPE")
    ∷ (literal (codes "err_stream_") ∷ [], codes "stream_error")
    ∷ []

unfoldable pub is_fatal_signal : Text → Bool
is_fatal_signal s =
    s == codes "SIGSEGV"
    || s == codes "SIGBUS"
    || s == codes "SIGABRT"
    || s == codes "SIGILL"
    || s == codes "SIGKILL"

unfoldable pub signal_exit_code : ℕ → Option Text
signal_exit_code n =
    if eqb n 134
    then some (codes "SIGABRT")
    else if eqb n 137
    then some (codes "SIGKILL")
    else if eqb n 139
    then some (codes "SIGSEGV")
    else none

abbrev pub store_busy_pattern : List (List Piece)
store_busy_pattern =
    literal (codes "database is locked")
    ∷ literal (codes "sqlite_busy")
    ∷ literal (codes "database is busy")
    ∷ []

abbrev pub sqlite_busy : ℕ
sqlite_busy = 5

-- What is read of a thrown value: its numeric `errcode`, and its message.
pub record Thrown : Type 0 where
  pub errcode : Option ℕ
  pub message : Text

unfoldable pub is_store_busy : Thrown → Bool
is_store_busy error = elim error.errcode [
  | some errcode ↦ eqb (errcode % 256) sqlite_busy
  | none ↦ test_pattern store_busy_pattern error.message
]

-- Decimal digits, in front of `acc`; `n` rounds are enough for `n`.
decimal_from : ℕ → ℕ → Text → Text
decimal_from zero n acc = acc
decimal_from (suc fuel) n acc =
    let rest = decimal_from fuel (n / 10) ((48 + n % 10) ∷ acc) in
    if ltb n 10 then (48 + n) ∷ acc else rest

unfoldable pub decimal : ℕ → Text
unfolding decimal_from
decimal n = decimal_from (suc n) n []

-- `text || undefined`
abbrev pub non_empty : Text → Option Text
non_empty [] = none
non_empty (c ∷ s) = some (c ∷ s)

-- The reason of the first pattern that the text matches.
unfoldable pub crash_reason : List (List (List Piece) × Text) → Text → Option Text
crash_reason [] clean = none
crash_reason ((pattern_of, reason) ∷ ps) clean =
    if test_pattern pattern_of clean then some reason else crash_reason ps clean

abbrev pub failure_info : FailureCode → FailureBlame → Bool → FailureInfo
failure_info code blame retryable = record {
  code = code;
  blame = blame;
  retryable = retryable;
  reason = none;
  detail = none;
  where_in = none;
  signal = none;
}

-- `signal && FATAL_SIGNALS[signal]`
unfoldable pub fatal_signal : Option Text → Option Text
fatal_signal none = none
fatal_signal (some s) = if is_fatal_signal s then some s else none

-- `exitCode != null && SIGNAL_EXIT_CODES[exitCode]`
unfoldable pub exit_signal : Option ℕ → Option Text
exit_signal none = none
exit_signal (some n) = signal_exit_code n

-- The exit status is the last evidence: zero and none are no failure of the task.
unfoldable pub classify_exit : Option Text → Option ℕ → FailureInfo
classify_exit detail none = record (failure_info unknown harness true) { detail = detail }
classify_exit detail (some n) =
    if eqb n 0
    then record (failure_info unknown harness true) { detail = detail }
    else record (failure_info task_error task false) {
      detail = some (get_or detail (codes "exit code " ++ decimal n));
    }

unfoldable pub classify_signals : Option Text → Option ℕ → Option Text → FailureInfo
classify_signals detail exit_code signal = elim (fatal_signal signal) [
  | some s ↦ record (failure_info harness_crash harness true) { signal = some s }
  | none ↦ elim (exit_signal exit_code) [
    | some s ↦ record (failure_info harness_crash harness true) { signal = some s }
    | none ↦ classify_exit detail exit_code
  ]
]

unfoldable pub classify_failure : Text → Option ℕ → Option Text → FailureInfo
classify_failure text exit_code signal =
    let clean = trim text in
    let detail = non_empty (take 300 clean) in
    if test_pattern store_busy_pattern clean
    then record (failure_info store_busy infra true) { detail = detail }
    else elim (crash_reason harness_crash_patterns clean) [
      | some reason ↦ record (failure_info harness_crash harness true) {
        reason = some reason;
        detail = detail;
      }
      | none ↦ classify_signals detail exit_code signal
    ]

-- The statuses that `exitCodeForOutcome` tells apart.
unfoldable pub exit_code_for_outcome : Text → Option FailureBlame → ℕ
exit_code_for_outcome status (some harness) =
    if status == codes "failed" || status == codes "orphaned" then 2 else 0
exit_code_for_outcome status (some infra) =
    if status == codes "interrupted" || status == codes "failed" || status == codes "orphaned"
    then 3
    else 0
exit_code_for_outcome status _ =
    if status == codes "failed" || status == codes "orphaned" then 1 else 0
