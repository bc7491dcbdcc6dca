-- ===== src/Core/Failure/Laws.antt =====
-- The codes, blames and exit codes of `classifyFailure` and `exitCodeForOutcome`.
use codedeck.Common.{
  ◌⊎◌, ℕ, Text, codes, ◌≡◌, ◌≢◌, refl, ◌↔◌, true, false, Option, none, some, arith, ◌==◌, trim,
  if◌then◌else◌,
}
use codedeck.Core.Failure.{
  unknown, harness_crash, FailureInfo, task_error, task, infra, store_busy, test_pattern,
  store_busy_pattern, harness_crash_patterns, crash_reason, fatal_signal, exit_signal,
  classify_exit, classify_signals, classify_failure, exit_code_for_outcome,
}

-- The evidence on which a failure is blamed on the task.
pub record BlamesTask (clean : Text) (exit_code : Option ℕ) (sig : Option Text) : Type 0 where
  pub store_free : test_pattern store_busy_pattern clean ≡ false
  pub no_crash : crash_reason harness_crash_patterns clean ≡ none
  pub no_fatal_signal : fatal_signal sig ≡ none
  pub no_signal_code : exit_signal exit_code ≡ none
  pub nonzero : (n : ℕ) × (exit_code ≡ some n) × (n ≢ 0)

-- The code of a failure decides its blame and whether a retry is advised.
pub record IsCoherent (f : FailureInfo) : Type 0 where
  pub known :
      (f.code ≡ store_busy) ⊎ (f.code ≡ task_error) ⊎ (f.code ≡ harness_crash) ⊎ (f.code ≡ unknown)
  pub busy_infra : f.code ≡ store_busy → f.blame ≡ infra
  pub infra_busy : f.blame ≡ infra → f.code ≡ store_busy
  pub task_blamed : f.code ≡ task_error → f.blame ≡ task
  pub blamed_task : f.blame ≡ task → f.code ≡ task_error
  pub crash_retryable : f.blame ≢ task → f.retryable ≡ true
  pub task_not_retryable : f.blame ≡ task → f.retryable ≡ false

-- Whatever the output, the exit status and the signal, the classification has one of four codes,
-- and its blame and its advice to retry follow from the code.
pub classify_failure-IsCoherent :
    (text : Text) (exit_code : Option ℕ) (sig : Option Text)
    → IsCoherent (classify_failure text exit_code sig)
unfolding classify_failure classify_signals classify_exit
classify_failure-IsCoherent text exit_code sig = ground arith

classify-task_error-to :
    (text : Text) (exit_code : Option ℕ) (sig : Option Text)
    → (classify_failure text exit_code sig).code ≡ task_error
    → BlamesTask (trim text) exit_code sig
unfolding classify_failure classify_signals classify_exit
classify-task_error-to text none sig h = ground arith
classify-task_error-to text (some n) sig h = record {
  store_free = ground arith;
  no_crash = ground arith;
  no_fatal_signal = ground arith;
  no_signal_code = ground arith;
  nonzero = (n, refl, ground arith);
}

classify-task_error-of :
    (text : Text) (exit_code : Option ℕ) (sig : Option Text)
    → BlamesTask (trim text) exit_code sig
    → (classify_failure text exit_code sig).code ≡ task_error
unfolding classify_failure classify_signals classify_exit
classify-task_error-of text exit_code sig b = ground arith

-- A failure is blamed on the task exactly when the output shows neither a busy store nor a crash
-- of the harness, no fatal signal is reported, and the exit code is neither zero nor that of a
-- signal.
pub classify-task_error_iff :
    (text : Text) (exit_code : Option ℕ) (sig : Option Text)
    → ((classify_failure text exit_code sig).code ≡ task_error)
      ↔ BlamesTask (trim text) exit_code sig
classify-task_error_iff text exit_code sig =
    (classify-task_error-to text exit_code sig, classify-task_error-of text exit_code sig)

-- For a failed session, `codedeck run` exits with 1 exactly when no retry is advised, with 3 when
-- the store was busy, and with 2 otherwise.
pub exit_code-classify_failure :
    (text : Text) (exit_code : Option ℕ) (sig : Option Text)
    → let f = classify_failure text exit_code sig in
      exit_code_for_outcome (codes "failed") (some f.blame)
      ≡ (if test_pattern store_busy_pattern (trim text) then 3 else if f.retryable then 2 else 1)
unfolding classify_failure classify_signals classify_exit exit_code_for_outcome ◌==◌
exit_code-classify_failure text exit_code sig = ground arith
