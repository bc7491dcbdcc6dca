-- ===== src/Daemon/WebSupervisor.antt =====
-- src/daemon/web-supervisor.ts: the one child that serves the web console, what a request asks of
-- it, and the handshake of its start. JSON.parse, isIP and the test that a file exists are inputs;
-- children are numbered. Signals, timers and the log are left out.
pub mod Reuse
use codedeck.Common.{
  ends_with, ℕ, Text, codes, Bool, true, false, Option, none, some, List, [], ◌∷◌, ◌++◌, ◌==◌, ◌&&◌,
  ◌||◌, not, eqb, get_or, or_else, starts_with, is_some, if◌then◌else◌,
}
use codedeck.Core.Failure.{decimal}
use codedeck.Daemon.Ipc.{cut_line}
use codedeck.Web.Host.{default_web_host, web_base_url}

-- A value of JSON.parse; a number is a natural number here.
mutual
  pub data Json : Type 0 where
    null : Json
    boolean : Bool → Json
    number : ℕ → Json
    string : Text → Json
    array : Items → Json
    object : Fields → Json

  pub data Items : Type 0 where
    no_items : Items
    item : Json → Items → Items

  pub data Fields : Type 0 where
    no_fields : Fields
    field : Text → Json → Fields → Fields

abbrev pub field_of : Text → Fields → Option Json
field_of name no_fields = none
field_of name (field key value rest) =
    let later = field_of name rest in if key == name then some value else later

abbrev pub string_of : Option Json → Option Text
string_of (some (string t)) = some t
string_of _ = none

abbrev pub number_of : Option Json → Option ℕ
number_of (some (number n)) = some n
number_of _ = none

pub record WebEnsureParams : Type 0 where
  pub host : Option Text
  pub preferred_host : Option Text
  pub port : Option ℕ
  pub preferred_port : Option ℕ
  pub entry : Option Text
  pub build : Option Text

pub data StartedFor : Type 0 where
  explicit_port preferred_port_of : ℕ → StartedFor
  no_port : StartedFor

pub data HostFor : Type 0 where
  explicit_host preferred_host_of no_host : HostFor

pub record RunningChild : Type 0 where
  pub base_url : Text
  pub port : ℕ
  pub token : Text
  pub child : ℕ
  pub host : Text
  pub host_for : HostFor
  pub entry : Text
  pub build : Option Text
  pub started_for : StartedFor

pub data SupervisorState : Type 0 where
  idle starting : SupervisorState
  running : RunningChild → SupervisorState

pub data WebEnsureError : Type 0 where
  bad_host bad_entry start_failed : WebEnsureError
  listen_failed : Text → ℕ → WebEnsureError  -- the message and the port

pub data Handshake : Type 0 where
  ok : ℕ → Text → Option Text → Handshake  -- port, token, build
  error : Text → Option ℕ → Handshake
  invalid : Text → Handshake

abbrev error_handshake : Fields → Handshake
error_handshake all =
    error (get_or (string_of (field_of (codes "message") all)) (codes "web child could not listen"))
      (number_of (field_of (codes "port") all))

abbrev ok_handshake : Option ℕ → Option Text → Option Text → Handshake
ok_handshake (some port) (some token) build = ok port token build
ok_handshake _ _ build = invalid (codes "missing port or token")

abbrev listening_handshake : Fields → Handshake
listening_handshake all =
    ok_handshake (number_of (field_of (codes "port") all))
      (string_of (field_of (codes "token") all)) (string_of (field_of (codes "build") all))

abbrev field_handshake : Fields → Option Json → Handshake
field_handshake all (some (object e)) = error_handshake e
field_handshake all (some (array e)) = error_handshake no_fields
field_handshake all _ = listening_handshake all

-- An array is an object without these all.
unfoldable pub parse_handshake : Option Json → Handshake
parse_handshake none = invalid (codes "not JSON")
parse_handshake (some (object all)) = field_handshake all (field_of (codes "error") all)
parse_handshake (some (array items)) = listening_handshake no_fields
parse_handshake (some _) = invalid (codes "not an object")

abbrev pub is_explicit : HostFor → Bool
is_explicit explicit_host = true
is_explicit _ = false

-- `requestedHost`
abbrev pub preferred_or : Option RunningChild → Option Text → Text × HostFor
preferred_or none none = (default_web_host, no_host)
preferred_or none (some host) = (host, preferred_host_of)
preferred_or (some r) none = (r.host, r.host_for)
preferred_or (some r) (some host) =
    if is_explicit r.host_for then (r.host, r.host_for) else (host, preferred_host_of)

abbrev pub host_or : Option Text → Text × HostFor → Text × HostFor
host_or none other = other
host_or (some host) other = (host, explicit_host)

unfoldable pub requested_host : Option RunningChild → WebEnsureParams → Text × HostFor
requested_host child params = host_or params.host (preferred_or child params.preferred_host)

abbrev pub is_given : Option Text → Text → Bool
is_given none t = true
is_given (some u) t = u == t

abbrev pub is_build : Option Text → Option Text → Bool
is_build none b = false
is_build (some a) b = elim b [ none ↦ false | some c ↦ a == c ]

abbrev pub is_preferred : ℕ → StartedFor → Bool
is_preferred port (preferred_port_of p) = eqb p port
is_preferred port _ = false

abbrev pub port_matches : StartedFor → Option ℕ → Option ℕ → Bool
port_matches for (some port) preferred = true
port_matches for none none = true
port_matches for none (some port) = is_preferred port for

module _ (default_entry : Text) where
  abbrev pub build_matches : RunningChild → WebEnsureParams → Bool
  build_matches r params =
      not (is_some params.build)
      || (get_or params.entry default_entry == r.entry && is_build params.build r.build)

  unfoldable pub matches : RunningChild → WebEnsureParams → Text → Bool
  matches r params host =
      r.host == host
      && is_given params.entry r.entry
      && build_matches r params
      && port_matches r.started_for params.port params.preferred_port

abbrev pub started_by : Option ℕ → Option ℕ → StartedFor
started_by (some port) preferred = explicit_port port
started_by none (some port) = preferred_port_of port
started_by none none = no_port

unfoldable pub started_for_of : WebEnsureParams → StartedFor
started_for_of params = started_by params.port params.preferred_port

abbrev port_args : StartedFor → List Text
port_args (explicit_port port) = codes "--port" ∷ decimal port ∷ []
port_args (preferred_port_of port) = codes "--preferred-port" ∷ decimal port ∷ []
port_args no_port = []

unfoldable pub start_args : WebEnsureParams → Text → List Text
unfolding started_for_of
start_args params host =
    codes "--web-child" ∷ codes "--host" ∷ host ∷ port_args (started_for_of params)

pub data Decision : Type 0 where
  refuse : WebEnsureError → Decision
  await_start : Decision  -- another start is in flight
  reuse : RunningChild → Decision
  start_new : Option RunningChild → Text → HostFor → Decision  -- the child to stop first, the host

module _ (is_ip : Text → ℕ) (entry_exists : Text → Bool) (default_entry : Text) where
  abbrev pub is_no_ip : Option Text → Bool
  is_no_ip none = false
  is_no_ip (some host) = eqb (is_ip host) 0

  abbrev pub is_bad_entry : Option Text → Bool
  is_bad_entry none = false
  is_bad_entry (some entry) = not (
      starts_with (codes "/") entry
      && ends_with (codes "/web/child.js") entry
      && entry_exists entry)

  abbrev pub start_or_reuse : WebEnsureParams → Option RunningChild → Decision
  start_or_reuse params none = let host = requested_host none params in start_new none host.0 host.1
  start_or_reuse params (some r) =
      let host = requested_host (some r) params in
      if matches default_entry r params host.0 then reuse r else start_new (some r) host.0 host.1

  abbrev pub decide : WebEnsureParams → SupervisorState → Decision
  decide params idle = start_or_reuse params none
  decide params starting = await_start
  decide params (running r) = start_or_reuse params (some r)

  unfoldable pub ensure : WebEnsureParams → SupervisorState → Decision
  unfolding matches requested_host
  ensure params state =
      if is_no_ip params.host || is_no_ip params.preferred_host
      then refuse bad_host
      else if is_bad_entry params.entry
      then refuse bad_entry
      else decide params state

module _ (is_ip : Text → ℕ) (default_entry : Text) where
  -- The record of a child whose handshake is good.
  unfoldable pub running_child :
      WebEnsureParams → Text → HostFor → ℕ → ℕ → Text → Option Text → RunningChild
  unfolding started_for_of
  running_child params host host_for child port token build = record {
    base_url = web_base_url is_ip host port;
    port = port;
    token = token;
    child = child;
    host = host;
    host_for = host_for;
    entry = get_or params.entry default_entry;
    build = or_else build params.build;
    started_for = started_for_of params;
  }

-- The start of a child: what it has printed so far, and whether its promise is settled.
pub record Start : Type 0 where
  pub params : WebEnsureParams
  pub host : Text
  pub host_for : HostFor
  pub child : ℕ
  pub buffer : Text
  pub settled : Bool

pub data StartOutcome : Type 0 where
  pending : StartOutcome
  listening : RunningChild → StartOutcome
  rejected : WebEnsureError → Bool → StartOutcome  -- whether the child is killed

module _ (is_ip : Text → ℕ) (default_entry : Text) (parse : Text → Option Json) where
  abbrev pub shaken : Start → Handshake → StartOutcome
  shaken s (invalid message) = rejected start_failed true
  shaken s (error message port) =
      rejected (listen_failed message (get_or port (get_or s.params.port 0))) false
  shaken s (ok port token build) =
      listening
        (running_child is_ip default_entry s.params s.host s.host_for s.child port token build)

  abbrev pub first_line : Start → Option (Text × Text) → Start × StartOutcome
  first_line s none = (s, pending)
  first_line s (some (line, rest)) =
      (record s { settled = true }, shaken s (parse_handshake (parse line)))

  -- The listener of the child's output.
  unfoldable pub on_output : Start → Text → Start × StartOutcome
  unfolding cut_line parse_handshake
  on_output s chunk =
      let buffer = s.buffer ++ chunk in
      if s.settled
      then (s, pending)
      else first_line (record s { buffer = buffer }) (cut_line buffer)

  -- The child has failed to start, has exited, or was silent for too long.
  unfoldable pub on_failure : Start → Start × StartOutcome
  on_failure s =
      if s.settled then (s, pending) else (record s { settled = true }, rejected start_failed true)

-- The exit of a child that was listening.
abbrev pub after_exit : ℕ → SupervisorState → SupervisorState
after_exit child (running r) = if eqb r.child child then idle else running r
after_exit child idle = idle
after_exit child starting = starting
