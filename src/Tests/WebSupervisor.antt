-- ===== src/Tests/WebSupervisor.antt =====
-- A request for the console that prefers a host, on a supervisor without a child.
use codedeck.Common.{◌==◌, ℕ, Text, codes, ◌≡◌, refl, Bool, true, none, some}
use codedeck.Daemon.WebSupervisor.{
  WebEnsureParams, RunningChild, preferred_host_of, idle, running, reuse, ensure, running_child,
  object, field, number, string, no_fields, parse_handshake, ok,
}
use codedeck.Daemon.WebSupervisor.Reuse.{ensure_again}

abbrev is_ip : Text → ℕ
is_ip t = 4

abbrev exists : Text → Bool
exists t = true

abbrev entry : Text
entry = codes "/opt/web/child.js"

abbrev asks : WebEnsureParams
asks = record {
  host = none;
  preferred_host = some (codes "10.0.0.2");
  port = none;
  preferred_port = some 8080;
  entry = none;
  build = some (codes "b1");
}

abbrev child : RunningChild
child = running_child is_ip entry asks (codes "10.0.0.2") preferred_host_of 7 8080 (codes "s3") none

ensure_again_example : ensure is_ip exists entry asks (running child) ≡ reuse child
unfolding ensure
ensure_again_example =
    ensure_again is_ip exists entry asks idle none (codes "10.0.0.2") preferred_host_of 7 8080
      (codes "s3") none refl refl

handshake :
    parse_handshake (
      some (
        object (
          field
            (codes "port")
            (number 8080)
            (field (codes "token") (string (codes "s3")) no_fields))))
    ≡ ok 8080 (codes "s3") none
unfolding parse_handshake ◌==◌
handshake = refl
