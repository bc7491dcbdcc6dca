-- ===== src/Store/Links/Phases.antt =====
-- The life of a native id in src/store/native-links.ts: unlinked, open, and reconciled for good.
use codedeck.Common.{
  ℕ, Text, ◌≡◌, refl, sym, ap, ◌∙◌, Bool, true, false, Option, none, some, List, [], ◌∷◌, ◌++◌,
  ◌==◌, ◌&&◌, ◌||◌, eq_iff, any, arith, filter_by, Bool-cases, inl, inr, any-sort_by, if◌then◌else◌,
}
use codedeck.Store.Links.{
  reconciled, by_linked, is_open, NativeLink, unreconciled, is_link, Links, ReconcileState, link,
  Linked, mark_reconciled,
}
use codedeck.Store.Sessions.{Sessions}

pub data Phase : Type 0 where
  unlinked opened settled : Phase

-- A call that changes the table.
pub data Call : Type 0 where
  to_link : Text → Text → ℕ → Call
  to_mark : Text → Text → ReconcileState → ℕ → Call

abbrev after : Links → Option (Links × Linked) → Links
after links none = links
after links (some (links', _)) = links'

unfoldable pub serve : Sessions → Links → Call → Links
unfolding link mark_reconciled
serve sessions links (to_link sid native now) = after links (link sessions links sid native now)
serve sessions links (to_mark sid native state now) = mark_reconciled links sid native state now

unfoldable pub serve_all : Sessions → Links → List Call → Links
unfolding serve
serve_all sessions links [] = links
serve_all sessions links (c ∷ cs) = serve_all sessions (serve sessions links c) cs

abbrev opens : Phase → Phase
opens unlinked = opened
opens p = p

abbrev settles : Phase → Phase
settles unlinked = unlinked
settles p = settled

-- What one call does to the phase of one native id of one session.
abbrev pub next_phase : Sessions → Text → Text → Call → Phase → Phase
next_phase sessions sid native (to_link s n now) p =
    if s == sid && n == native && any (λ r. r.id == s) sessions then opens p else p
next_phase sessions sid native (to_mark s n state now) p =
    if s == sid && n == native then settles p else p

abbrev pub phase_after : Sessions → Text → Text → List Call → Phase → Phase
phase_after sessions sid native [] p = p
phase_after sessions sid native (c ∷ cs) p =
    phase_after sessions sid native cs (next_phase sessions sid native c p)

abbrev pub is_opened : Phase → Bool
is_opened opened = true
is_opened _ = false

module _ (sid native : Text) where
  abbrev linked : Links → Bool
  linked links = any (is_link sid native) links

  abbrev waits : NativeLink → Bool
  waits l = is_link sid native l && is_open l

  abbrev phase : Bool → Bool → Phase
  phase waiting known = if waiting then opened else if known then settled else unlinked

  abbrev pub phase_of : Links → Phase
  phase_of links = phase (any waits links) (linked links)

  any-snoc :
      (p : NativeLink → Bool) (links : Links) (l : NativeLink)
      → any p (links ++ l ∷ []) ≡ (any p links || p l)
  any-snoc p [] l = ground arith
  any-snoc p (x ∷ links) l = ground (arith, any-snoc p links l)

  waits-linked : (links : Links) → linked links ≡ false → any waits links ≡ false
  waits-linked [] h = refl
  waits-linked (l ∷ links) h = ground (arith, waits-linked links)

  waits-unreconciled :
      (links : Links)
      → any (λ l. l.native_id == native) (filter_by (λ l. l.session_id == sid && is_open l) links)
        ≡ any waits links
  waits-unreconciled [] = refl
  waits-unreconciled (l ∷ links) = ground (arith, waits-unreconciled links)

  unreconciled-phase_of :
      (links : Links)
      → any (λ l. l.native_id == native) (unreconciled links sid) ≡ is_opened (phase_of links)
  unfolding unreconciled
  unreconciled-phase_of links =
      any-sort_by by_linked (λ l. l.native_id == native) _ ∙ waits-unreconciled links ∙ ground arith

  abbrev key : Text → Text → Bool
  key s n = s == sid && n == native

  -- Two keys that are equal select the same rows.
  is_link-key :
      (s n : Text) (l : NativeLink) → key s n ≡ true → is_link s n l ≡ is_link sid native l
  is_link-key s n l h =
      let es : s ≡ sid = (eq_iff s sid).0 (ground arith) in
      let en : n ≡ native = (eq_iff n native).0 (ground arith) in rw (es, en) refl

  -- A row has one key.
  link-key : (s n : Text) (l : NativeLink) → is_link s n l ≡ true → is_link sid native l ≡ key s n
  link-key s n l h =
      let es : l.session_id ≡ s = (eq_iff l.session_id s).0 (ground arith) in
      let en : l.native_id ≡ n = (eq_iff l.native_id n).0 (ground arith) in rw (es, en) refl

  linked-mark :
      (s n : Text) (state : ReconcileState) (now : ℕ) (links : Links)
      → linked (mark_reconciled links s n state now) ≡ linked links
  unfolding mark_reconciled
  linked-mark s n state now [] = refl
  linked-mark s n state now (l ∷ links) = elim (Bool-cases (is_link s n l)) [
    | inl e ↦ rw e (ap (λ b. is_link sid native l || b) (linked-mark s n state now links))
    | inr e ↦ rw e (ap (λ b. is_link sid native l || b) (linked-mark s n state now links))
  ]

  waits-mark_row :
      (s n : Text) (state : ReconcileState) (now : ℕ) (l : NativeLink)
      → waits (if is_link s n l then reconciled state now l else l)
        ≡ (if key s n then false else waits l)
  waits-mark_row s n state now l = elim (Bool-cases (is_link s n l)) [
    | inl e ↦ rw e (ground (arith, link-key s n l e))
    | inr e ↦ rw e (elim (Bool-cases (key s n)) [
      | inl k ↦ ground (arith, is_link-key s n l k)
      | inr k ↦ rw k refl
    ])
  ]

  waits-mark :
      (s n : Text) (state : ReconcileState) (now : ℕ) (links : Links)
      → any waits (mark_reconciled links s n state now)
        ≡ (if key s n then false else any waits links)
  unfolding mark_reconciled
  waits-mark s n state now [] = ground arith
  waits-mark s n state now (l ∷ links) =
      ground (arith, waits-mark_row s n state now l, waits-mark s n state now links)

  mark-phase :
      (k w l : Bool)
      → (l ≡ false → w ≡ false)
      → phase (if k then false else w) l ≡ (if k then settles (phase w l) else phase w l)
  mark-phase k w l h = elim (Bool-cases l) [ inl e ↦ ground arith | inr e ↦ ground (arith, h e) ]

  mark-phase_of :
      (s n : Text) (state : ReconcileState) (now : ℕ) (links : Links)
      → phase_of (mark_reconciled links s n state now)
        ≡ (if key s n then settles (phase_of links) else phase_of links)
  mark-phase_of s n state now links =
      rw (waits-mark s n state now links, linked-mark s n state now links)
        (mark-phase (key s n) _ _ (waits-linked links))

  linked-key :
      (s n : Text) (links : Links) → key s n ≡ true → any (is_link s n) links ≡ linked links
  linked-key s n [] h = refl
  linked-key s n (l ∷ links) h = ground (arith, is_link-key s n l h, linked-key s n links h)

  -- A link that is there keeps its phase.
  again-phase :
      (b w l : Bool)
      → (b ≡ true → l ≡ true)
      → phase w l ≡ (if b then opens (phase w l) else phase w l)
  again-phase b w l h = elim (Bool-cases b) [ inl e ↦ ground (arith, h e) | inr e ↦ ground arith ]

  -- A link that is new opens its key.
  fresh-phase :
      (k w l : Bool)
      → (k ≡ true → l ≡ false)
      → (l ≡ false → w ≡ false)
      → phase (w || k && true) (l || k) ≡ (if k && true then opens (phase w l) else phase w l)
  fresh-phase k w l h g = elim (Bool-cases k) [
    | inl e ↦ ground (arith, h e, g (h e))
    | inr e ↦ ground arith
  ]

  link-phase_of :
      (sessions : Sessions) (s n : Text) (now : ℕ) (links : Links)
      → phase_of (after links (link sessions links s n now)) ≡ (
          if key s n && any (λ r. r.id == s) sessions
          then opens (phase_of links)
          else phase_of links)
  unfolding link
  link-phase_of sessions s n now links = elim (Bool-cases (any (is_link s n) links)) [
    | inl e ↦ rw e (again-phase _ _ _ (λ b. sym (linked-key s n links (ground arith)) ∙ e))
    | inr e ↦ elim (Bool-cases (any (λ r. r.id == s) sessions)) [
      | inl f ↦
          rw (e, f, any-snoc waits links, any-snoc (is_link sid native) links)
            (fresh-phase (key s n) _ _ (λ k. sym (linked-key s n links k) ∙ e) (waits-linked links))
      | inr f ↦ rw (e, f) (ground arith)
    ]
  ]

  serve-phase_of :
      (sessions : Sessions) (links : Links) (c : Call)
      → phase_of (serve sessions links c) ≡ next_phase sessions sid native c (phase_of links)
  unfolding serve
  serve-phase_of sessions links (to_link s n now) = link-phase_of sessions s n now links
  serve-phase_of sessions links (to_mark s n state now) = mark-phase_of s n state now links

  serve_all-phase_of :
      (sessions : Sessions) (links : Links) (cs : List Call)
      → phase_of (serve_all sessions links cs) ≡ phase_after sessions sid native cs (phase_of links)
  unfolding serve_all
  serve_all-phase_of sessions links [] = refl
  serve_all-phase_of sessions links (c ∷ cs) =
      serve_all-phase_of sessions (serve sessions links c) cs
      ∙ ap (phase_after sessions sid native cs) (serve-phase_of sessions links c)

-- After any history of links and marks on an empty table, a native id waits for its usage in
-- `unreconciled` exactly when it was linked while its session was in the table and has not been
-- marked after that; one that is marked never waits again.
pub serve_all-unreconciled :
    (sessions : Sessions) (cs : List Call) (sid native : Text)
    → any (λ l. l.native_id == native) (unreconciled (serve_all sessions [] cs) sid)
      ≡ is_opened (phase_after sessions sid native cs unlinked)
serve_all-unreconciled sessions cs sid native =
    unreconciled-phase_of sid native (serve_all sessions [] cs)
    ∙ ap is_opened (serve_all-phase_of sid native sessions [] cs)
