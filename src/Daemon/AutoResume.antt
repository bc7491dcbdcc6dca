-- ===== src/Daemon/AutoResume.antt =====
-- src/daemon/auto-resume.ts: which sessions the daemon continues by itself after a shutdown. Times
-- are in milliseconds.
use codedeck.Common.{
  ℕ, ◌+◌, ◌*◌, Text, codes, ◌≡◌, Bool, true, false, Option, none, some, ◌++◌, ◌&&◌, ◌||◌, not, leb,
  get_or, is_empty, arith, if◌then◌else◌,
}
use codedeck.Core.Failure.{FailureInfo, FailureCode, shutdown}
use codedeck.Core.Session.{Session}
use codedeck.Daemon.{World, Daemon, truthy, is_open, is_interrupted, is_locked, live_pid_identity}
use codedeck.Daemon.Send.{send_refusal}

abbrev auto_resume_prompt : Text
auto_resume_prompt =
    codes
      "The previous turn was interrupted by a system shutdown before it finished. Inspect `git status` and `git diff` before acting, then continue the original task from where it stopped."

unfoldable pub build_auto_resume_prompt : Option Text → Text
build_auto_resume_prompt none = auto_resume_prompt
build_auto_resume_prompt (some message) =
    if is_empty message
    then auto_resume_prompt
    else auto_resume_prompt
      ++ (codes "\n\nBefore the shutdown, the user queued this message for you:\n\n" ++ message)

pub record Eligibility : Type 0 where
  pub now : ℕ
  pub max_age_hours : ℕ
  pub can_resume : Bool
  pub live_identity : Bool

abbrev is_shutdown_code : FailureCode → Bool
is_shutdown_code shutdown = true
is_shutdown_code _ = false

abbrev was_shut_down : Option FailureInfo → Bool
was_shut_down none = false
was_shut_down (some f) = is_shutdown_code f.code && f.retryable

unfoldable pub is_auto_resume_eligible : Session → Eligibility → Bool
is_auto_resume_eligible s o =
    if not (is_interrupted s.status)
    then false
    else if not (was_shut_down s.failure)
    then false
    else if is_open s || not (truthy s.native_session_id) || not o.can_resume || o.live_identity
    then false
    else leb o.now (get_or s.completed_at s.updated_at + o.max_age_hours * 60 * 60 * 1000)

-- A session that is found eligible, by what the daemon finds of its driver and its process, and
-- that no other operation holds, is refused no message.
pub eligible-send_refusal :
    (w : World) (d : Daemon) (s : Session) (o : Eligibility)
    → o.can_resume ≡ w.can_resume s.agent
    → o.live_identity ≡ live_pid_identity w s
    → is_locked d s.id ≡ false
    → is_auto_resume_eligible s o ≡ true
    → send_refusal w d s ≡ none
unfolding is_auto_resume_eligible send_refusal
eligible-send_refusal w d s o can live free h = ground arith
