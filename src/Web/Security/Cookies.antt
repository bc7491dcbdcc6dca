-- ===== src/Web/Security/Cookies.antt =====
-- The cookie that src/web/security.ts sets, which carries the token of the console.
use codedeck.Common.{
  if_both, ◌++◌, to_lower, if_both, ℕ, Text, ◌≡◌, codes, Bool, true, false, Option, none, some,
  List, [], ◌∷◌, ◌&&◌, ◌||◌, not, arith, Bool-cases, inl, inr, if_cases, if◌then◌else◌, ◌==◌, any,
}
use codedeck.Core.Failure.{decimal}
use codedeck.Web.Host.{WebSecurity, is_allowed_web_host, web_base_url}
use codedeck.Web.Security.{
  web_forbidden_message, session_cookie, asked_host, entered, entered_by, Urls, Url, Request,
  Response, WebRoutePolicy, check_web_request, check_page, or_moved, has_session_cookie, is_method,
  redirect_to_canonical_host, redirect_with_session_cookie, framed, request_url, loopback_url,
  redirected, reject, set_header, has_valid_action_credentials,
}

abbrev pub sets_cookie : Response → Bool
sets_cookie r = any (λ h. h.0 == codes "Set-Cookie") r.headers

abbrev pub is_one_token : Text → List Text → Bool
is_one_token token [] = false
is_one_token token (t ∷ []) = t == token
is_one_token token (t ∷ u ∷ ts) = false

module _ (is_ip : Text → ℕ) (urls : Urls) (security : WebSecurity) (request : Request) where
  abbrev presents : Option Url → Bool
  presents none = false
  presents (some url) = is_one_token security.token url.tokens

  -- The address of the request has the parameter `t` once, with the token.
  abbrev pub presents_token : Bool
  presents_token = presents (urls.parse (request_url request) (loopback_url security.port))

  Reveals : Bool → Response → Type 0
  Reveals known r = (not (sets_cookie r) || known) ≡ true

  RevealsIn : Bool → Option Response → Type 0
  RevealsIn known none = Unit
  RevealsIn known (some r) = Reveals known r

  moved-Reveals :
      (known : Bool) (o : Option Response) (r : Bool × Response)
      → RevealsIn known o
      → Reveals known r.1
      → Reveals known (or_moved o r).1
  unfolding RevealsIn
  moved-Reveals known none r h g = g
  moved-Reveals known (some moved) r h g = h

  known-Reveals : (r : Response) → Reveals true r
  unfolding Reveals
  known-Reveals r = ground arith

  more-Reveals :
      (few many : Bool) (r : Response) → (not few || many) ≡ true → Reveals few r → Reveals many r
  unfolding Reveals
  more-Reveals few many r h g = ground arith

  more-RevealsIn :
      (few many : Bool) (o : Option Response)
      → (not few || many) ≡ true
      → RevealsIn few o
      → RevealsIn many o
  unfolding RevealsIn
  more-RevealsIn few many none h g = tt
  more-RevealsIn few many (some r) h g = more-Reveals few many r h g

  module _ (response : Response) (plain : sets_cookie response ≡ false) where
    redirected-Reveals :
        (known : Bool) (o : Option Url)
        → RevealsIn known (redirected is_ip urls security response o)
    unfolding RevealsIn Reveals ◌==◌
    redirected-Reveals known none = tt
    redirected-Reveals known (some url) = ground (arith, plain)

    canonical-Reveals :
        (known : Bool)
        → RevealsIn known (redirect_to_canonical_host is_ip urls security request response)
    unfolding redirect_to_canonical_host RevealsIn
    canonical-Reveals known =
        let url = urls.parse (request_url request) (loopback_url security.port) in
        let o = redirected is_ip urls security response url in
        let other =
          not (to_lower (asked_host request) == codes "localhost:" ++ decimal security.port) in
        if_both (RevealsIn known)
          (not (web_base_url is_ip security.host security.port == loopback_url security.port))
          {x = none} {y = if other then none else o} tt
          (if_both (RevealsIn known) other {x = none} {y = o} tt (redirected-Reveals known url))

    entered_by-Reveals :
        (url : Url) (tokens : List Text)
        → RevealsIn
            (is_one_token security.token tokens)
            (entered_by is_ip urls security response url tokens)
    unfolding RevealsIn
    entered_by-Reveals url [] = tt
    entered_by-Reveals url (t ∷ u ∷ tokens) = tt
    entered_by-Reveals url (t ∷ []) = elim (Bool-cases (t == security.token)) [
      | inl e ↦ rw e (known-Reveals _)
      | inr e ↦ rw e tt
    ]

    entered-Reveals :
        (o : Option Url) → RevealsIn (presents o) (entered is_ip urls security response o)
    unfolding RevealsIn
    entered-Reveals none = tt
    entered-Reveals (some url) = entered_by-Reveals url url.tokens

    reject-Reveals : (known : Bool) (message : Text) → Reveals known (reject message response)
    unfolding Reveals reject ◌==◌
    reject-Reveals known message = ground (arith, plain)

  page-Reveals :
      (response : Response)
      → sets_cookie response ≡ false
      → Reveals
          (has_session_cookie request security || presents_token)
          (check_page is_ip urls security request response).1
  unfolding check_page redirect_with_session_cookie
  page-Reveals response plain =
      let cookie = has_session_cookie request security in
      let known = cookie || presents_token in
      let canonical = redirect_to_canonical_host is_ip urls security request response in
      let entering = redirect_with_session_cookie is_ip urls security request response in
      let P = λ (r : Bool × Response). Reveals known r.1 in
      moved-Reveals known canonical _ (canonical-Reveals response plain known) (
        moved-Reveals known entering _
          (more-RevealsIn presents_token known entering (ground arith) (
            entered-Reveals response plain
              (urls.parse (request_url request) (loopback_url security.port))))
          (if_cases P (not cookie) (λ _. reject-Reveals response plain known _)
            (λ e. more-Reveals true known _ (ground arith) (
              known-Reveals (set_header (codes "Set-Cookie") (session_cookie security) response)))))

  framed-plain :
      (response : Response)
      → sets_cookie response ≡ false
      → sets_cookie (framed is_ip urls security response) ≡ false
  unfolding ◌==◌
  framed-plain response plain = plain

  plain-Reveals :
      (known : Bool) (response : Response) → sets_cookie response ≡ false → Reveals known response
  unfolding Reveals
  plain-Reveals known response plain = ground (arith, plain)

  check-Reveals :
      (response : Response) (policy : WebRoutePolicy)
      → sets_cookie response ≡ false
      → Reveals
          (is_allowed_web_host is_ip request.host security
            && (has_session_cookie request security || presents_token))
          (check_web_request is_ip urls security request response policy).1
  unfolding check_web_request
  check-Reveals response policy plain =
      let host = is_allowed_web_host is_ip request.host security in
      let cookie = has_session_cookie request security in
      let shown = cookie || presents_token in
      let known = host && shown in
      let post = is_method (codes "POST") request in
      let action = has_valid_action_credentials is_ip urls security request in
      let P = λ (r : Bool × Response). Reveals known r.1 in
      let refuse = reject-Reveals response plain known web_forbidden_message in
      let page = framed is_ip urls security response in
      if_cases P (not host) (λ _. refuse)
        (λ allowed. if_both P (post && not action) refuse (
          if_both P (policy.api && not cookie) refuse (
            if_both P policy.html_page
              (if_both P (is_method (codes "GET") request)
                (more-Reveals shown known (check_page is_ip urls security request page).1
                  (ground arith) (page-Reveals page (framed-plain response plain)))
                (plain-Reveals known page (framed-plain response plain)))
              (plain-Reveals known response plain))))

  -- The answer to a request, granted or refused, sets the cookie only where the host is one of the
  -- console's and the request itself shows the token, in its cookie or once in its address.
  pub check-cookie :
      (response : Response) (policy : WebRoutePolicy)
      → sets_cookie response ≡ false
      → sets_cookie (check_web_request is_ip urls security request response policy).1 ≡ true
      → (is_allowed_web_host is_ip request.host security
          && (has_session_cookie request security || presents_token))
        ≡ true
  unfolding Reveals
  check-cookie response policy plain set = ground (arith, set, check-Reveals response policy plain)
