-- ===== src/Tests/SessionDriver.antt =====
-- A driver whose parser knows no line, a process that prints one line and exits, and a turn that
-- is resumed.
use codedeck.Common.{
  ◌++◌, ◌==◌, codes, ◌≡◌, refl, true, false, max, Option, none, some, List, [], ◌∷◌,
}
use codedeck.Drivers.Runtime.{Runtime, Line, log, wire, finish, ended}
use codedeck.Drivers.SessionDriver.{
  get_handle, start, SessionDriverHookOptions, parsed, DriverSession, Spawned, Handles, send,
  resume_id,
}
use codedeck.Drivers.SessionDriver.Ending.{
  terminals, hooks, added, synthesized_at, finish-terminals,
}

abbrev plain : SessionDriverHookOptions
plain = record {
  parse = λ line sid. parsed [];
  harness = codes "codex";
  parse_stderr = none;
  plain_text_fallback = true;
  is_json = λ line. false;
  native_in_line = λ line. none;
}

abbrev process : Runtime
process = wire (codes "s1") none 0 0

abbrev said : List Line
said = record { stream = log; text = codes "hello"; offset = 6; now = 3 } ∷ []

abbrev all_read : Runtime
all_read = ended (hooks plain (codes "s1") 3) process said (some 0)

abbrev gone : Runtime
gone = finish (hooks plain (codes "s1") 3) process said (some 0) none

finish-terminals_example :
    (gone.buffer
      ≡ all_read.buffer
        ++ added plain (codes "s1") 3 all_read (synthesized_at plain (codes "s1") 3 all_read none))
    × (terminals gone.buffer ≡ max 1 (terminals all_read.buffer))
unfolding wire
finish-terminals_example =
    finish-terminals plain (codes "s1") 3 process said (some 0) none refl refl refl

abbrev idle : DriverSession
idle = record {
  id = codes "s1";
  native_session_id = none;
  pid = none;
  pid_start_time = none;
  cwd = codes "/repo";
}

abbrev handles : Handles
handles = (codes "s1", wire (codes "s1") (some (codes "n1")) 0 0) ∷ []

abbrev spawned : Spawned
spawned = record { pid = 9; stdout_offset = 6; stderr_offset = 0 }

abbrev outcome : Option (Handles × DriverSession) → Handles × DriverSession
outcome none = ([], idle)
outcome (some r) = r

abbrev after : Handles × DriverSession
after = outcome (send handles idle spawned)

-- The runtime's native id is resumed.
resumed : after.1.native_session_id ≡ some (codes "n1")
unfolding send start resume_id get_handle ◌==◌ wire
resumed = refl
