-- ===== src/Core/UsageSource.antt =====
-- src/core/usage-source.ts: the keys under which usage is observed.
use codedeck.Common.{ℕ, Text, codes, Option, none, some, ◌++◌, get_or}
use codedeck.Core.Failure.{decimal}
use codedeck.Core.Session.{Session, AgentId, claude, codex, opencode, omp, antigravity, grok}

abbrev native_or_id : Session → Text
native_or_id s = get_or s.native_session_id s.id

abbrev key_of : AgentId → Session → ℕ → Option Text
key_of claude s n = some (codes "claude:" ++ native_or_id s ++ codes "#" ++ decimal n)
key_of grok s n = some (codes "grok:" ++ native_or_id s ++ codes "#" ++ decimal n)
key_of codex s n = some (codes "codex:" ++ native_or_id s)
key_of antigravity s n = some (codes "session:" ++ s.id)
key_of omp s n = some (codes "session:" ++ s.id)
key_of opencode s n = none

unfoldable pub worker_source_key : Session → ℕ → Option Text
worker_source_key session process_ordinal = key_of session.agent session process_ordinal

unfoldable pub open_source_key : Text → Text
open_source_key native_id = codes "claude-open:" ++ native_id
