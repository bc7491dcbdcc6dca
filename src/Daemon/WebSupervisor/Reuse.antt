-- ===== src/Daemon/WebSupervisor/Reuse.antt =====
-- `ensure` of src/daemon/web-supervisor.ts: a request that is made again after it started a child.
use codedeck.Common.{
  ℕ, Text, ◌≡◌, refl, sym, ap, ◌∙◌, Bool, true, false, Option, none, some, ◌||◌, not, arith, get_or,
  or_else, is_some, ◌==◌, eq_refl, if◌then◌else◌,
}
use mathlib.Core.Option.{some-injective}
use codedeck.Daemon.WebSupervisor.{
  WebEnsureError, WebEnsureParams, HostFor, RunningChild, SupervisorState, idle, starting, running,
  Decision, refuse, reuse, start_new, bad_host, bad_entry, requested_host, preferred_or, host_or,
  is_given, is_build, port_matches, started_by, matches, started_for_of, ensure, decide,
  start_or_reuse, running_child, is_no_ip, is_bad_entry,
}

-- The host that a request asks of the child that its first run started.
asked_again :
    (o : Option RunningChild) (host preferred : Option Text) (r : RunningChild)
    → r.host ≡ (host_or host (preferred_or o preferred)).0
    → r.host_for ≡ (host_or host (preferred_or o preferred)).1
    → (host_or host (preferred_or (some r) preferred)).0 ≡ r.host
asked_again o (some h) preferred r e f = sym e
asked_again o none none r e f = refl
asked_again none none (some p) r e f = ground (arith, e, f)
asked_again (some q) none (some p) r e f = ground (arith, e, f)

given_again :
    (entry : Option Text) (fallback : Text) → is_given entry (get_or entry fallback) ≡ true
given_again none fallback = refl
given_again (some e) fallback = eq_refl e

port_again :
    (port preferred : Option ℕ) → port_matches (started_by port preferred) port preferred ≡ true
port_again (some p) preferred = refl
port_again none none = refl
port_again none (some p) = ground arith

-- The build that the child reports is the one asked for, if both are known.
abbrev pub agrees : Option Text → Option Text → Bool
agrees none reported = true
agrees (some asked) none = true
agrees (some asked) (some reported) = asked == reported

build_again :
    (asked reported : Option Text)
    → agrees asked reported ≡ true
    → (not (is_some asked) || is_build asked (or_else reported asked)) ≡ true
build_again none reported h = refl
build_again (some a) none h = ground (arith, eq_refl a)
build_again (some a) (some b) h = h

abbrev started_host : Decision → Option (Text × HostFor)
started_host (start_new o host for) = some (host, for)
started_host _ = none

module _ (is_ip : Text → ℕ) (entry_exists : Text → Bool) (default_entry : Text) where
  matches_again :
      (params : WebEnsureParams) (host : Text) (for : HostFor) (child port : ℕ) (token : Text)
      (build : Option Text)
      → agrees params.build build ≡ true
      → matches default_entry
          (running_child is_ip default_entry params host for child port token build)
          params
          host
        ≡ true
  unfolding matches running_child started_for_of
  matches_again params host for child port token build h = ground (
    arith,
    eq_refl host,
    eq_refl (get_or params.entry default_entry),
    given_again params.entry default_entry,
    port_again params.port params.preferred_port,
    build_again params.build build h,
  )

abbrev Starts : Decision → Text × HostFor → Type 0
Starts d h = started_host d ≡ some h

past_guard :
    (b : Bool) (e : WebEnsureError) (d : Decision) (h : Text × HostFor)
    → Starts (if b then refuse e else d) h
    → (b ≡ false) × Starts d h
past_guard true e d h s = ground arith
past_guard false e d h s = (refl, s)

passes :
    (b c : Bool) (e f : WebEnsureError) (d : Decision)
    → b ≡ false
    → c ≡ false
    → (if b then refuse e else if c then refuse f else d) ≡ d
passes true c e f d h k = ground (arith, h)
passes false true e f d h k = ground (arith, k)
passes false false e f d h k = refl

no_match :
    (b : Bool) (r : RunningChild) (asked h : Text × HostFor)
    → Starts (if b then reuse r else start_new (some r) asked.0 asked.1) h
    → asked ≡ h
no_match true r asked h s = ground (arith, s)
no_match false r asked h s = some-injective _ _ s

module _ (is_ip : Text → ℕ) (entry_exists : Text → Bool) (default_entry : Text) where
  start-host :
      (params : WebEnsureParams) (o : Option RunningChild) (h : Text × HostFor)
      → Starts (start_or_reuse is_ip entry_exists default_entry params o) h
      → requested_host o params ≡ h
  start-host params none h s = some-injective _ _ s
  start-host params (some r) h s =
      no_match (matches default_entry r params (requested_host (some r) params).0) r
        (requested_host (some r) params) h s

  decide-host :
      (params : WebEnsureParams) (state : SupervisorState) (h : Text × HostFor)
      → Starts (decide is_ip entry_exists default_entry params state) h
      → (o : Option RunningChild) × (requested_host o params ≡ h)
  decide-host params idle h s = (none, start-host params none h s)
  decide-host params starting h s = ground (arith, s)
  decide-host params (running r) h s = (some r, start-host params (some r) h s)

  reused :
      (params : WebEnsureParams) (o : Option RunningChild) (h : Text × HostFor) (child port : ℕ)
      (token : Text) (build : Option Text)
      → requested_host o params ≡ h
      → agrees params.build build ≡ true
      → let r = running_child is_ip default_entry params h.0 h.1 child port token build in
        start_or_reuse is_ip entry_exists default_entry params (some r) ≡ reuse r
  unfolding requested_host running_child
  reused params o h child port token build e a =
      let r = running_child is_ip default_entry params h.0 h.1 child port token build in
      let same =
        asked_again o params.host params.preferred_host r (sym (ap (λ x. x.0) e))
          (sym (ap (λ x. x.1) e)) in
      let fits =
        ap (matches default_entry r params) same
        ∙ matches_again is_ip entry_exists default_entry params h.0 h.1 child port token build a in
      ap
        (λ b.
          if b
          then reuse r
          else start_new (some r) (requested_host (some r) params).0
              (requested_host (some r) params).1)
        fits

  -- A request that starts a child, whatever ran before it, gets that very child when it is made
  -- again, and does not replace it, unless it names a build and the child reports another one.
  pub ensure_again :
      (params : WebEnsureParams) (state : SupervisorState) (previous : Option RunningChild)
      (host : Text) (host_for : HostFor) (child port : ℕ) (token : Text) (build : Option Text)
      → ensure is_ip entry_exists default_entry params state ≡ start_new previous host host_for
      → agrees params.build build ≡ true
      → ensure is_ip entry_exists default_entry params
          (running (running_child is_ip default_entry params host host_for child port token build))
        ≡ reuse (running_child is_ip default_entry params host host_for child port token build)
  unfolding ensure
  ensure_again params state previous host host_for child port token build e a =
      let h : Text × HostFor = (host, host_for) in
      let hosts_ok =
        past_guard
          (is_no_ip is_ip entry_exists default_entry params.host
            || is_no_ip is_ip entry_exists default_entry params.preferred_host)
          bad_host _ h (ap started_host e) in
      let entry_ok =
        past_guard (is_bad_entry is_ip entry_exists default_entry params.entry) bad_entry _ h
          hosts_ok.1 in
      let asked = decide-host params state h entry_ok.1 in
      passes
        (is_no_ip is_ip entry_exists default_entry params.host
          || is_no_ip is_ip entry_exists default_entry params.preferred_host)
        (is_bad_entry is_ip entry_exists default_entry params.entry) bad_host bad_entry
        (start_or_reuse is_ip entry_exists default_entry params
          (some (running_child is_ip default_entry params host host_for child port token build)))
        hosts_ok.0 entry_ok.0
      ∙ reused params asked.0 h child port token build asked.1 a
