-- ===== src/Web/Security/Granted.antt =====
-- `checkWebRequest` of src/web/security.ts, as `createWebServer` of src/web/server.ts calls it.
use codedeck.Common.{
  ℕ, Text, ◌≡◌, refl, codes, Bool, true, Option, none, some, ◌&&◌, ◌||◌, not, arith, if_cases,
}
use codedeck.Web.Host.{WebSecurity, is_allowed_web_host}
use codedeck.Web.Security.{
  Urls, Request, Response, WebRoutePolicy, check_web_request, check_page, or_moved,
  has_session_cookie, has_valid_action_credentials, is_method, redirect_to_canonical_host,
  redirect_with_session_cookie, framed,
}

module _ (is_ip : Text → ℕ) (urls : Urls) (security : WebSecurity) (request : Request) where
  -- The host is one of the console's, an action shows the cookie and comes from the console's own
  -- page, and a call of the API and the fetch of a page show the cookie.
  abbrev pub has_rights : WebRoutePolicy → Bool
  has_rights policy =
      is_allowed_web_host is_ip request.host security
      && (not (is_method (codes "POST") request)
          || has_valid_action_credentials is_ip urls security request)
      && (not policy.api || has_session_cookie request security)
      && (not policy.html_page
          || not (is_method (codes "GET") request)
          || has_session_cookie request security)

  Granted : Bool → Bool × Response → Type 0
  Granted rights r = (not r.0 || rights) ≡ true

  moved-Granted :
      (rights : Bool) (o : Option Response) (r : Bool × Response)
      → Granted rights r
      → Granted rights (or_moved o r)
  unfolding Granted
  moved-Granted rights none r h = h
  moved-Granted rights (some moved) r h = refl

  more-Granted :
      (few many : Bool) (r : Bool × Response)
      → (not few || many) ≡ true
      → Granted few r
      → Granted many r
  unfolding Granted
  more-Granted few many r h g = ground arith

  page-Granted :
      (response : Response)
      → Granted
          (has_session_cookie request security)
          (check_page is_ip urls security request response)
  unfolding check_page Granted
  page-Granted response =
      let cookie = has_session_cookie request security in
      let canonical = redirect_to_canonical_host is_ip urls security request response in
      let entering = redirect_with_session_cookie is_ip urls security request response in
      moved-Granted cookie canonical _ (
        moved-Granted cookie entering _
          (if_cases (Granted cookie) (not cookie) (λ _. refl) (λ e. ground (arith, e))))

  check-Granted :
      (response : Response) (policy : WebRoutePolicy)
      → Granted (has_rights policy) (check_web_request is_ip urls security request response policy)
  unfolding check_web_request Granted
  check-Granted response policy =
      let rights = has_rights policy in
      let cookie = has_session_cookie request security in
      let post = is_method (codes "POST") request in
      let action = has_valid_action_credentials is_ip urls security request in
      if_cases (Granted rights) (not (is_allowed_web_host is_ip request.host security)) (λ _. refl)
        (λ host.
          if_cases (Granted rights) (post && not action) (λ _. refl)
            (λ posting.
              if_cases (Granted rights) (policy.api && not cookie) (λ _. refl)
                (λ calling.
                  if_cases (Granted rights) policy.html_page
                    (λ shown.
                      if_cases (Granted rights) (is_method (codes "GET") request)
                        (λ fetched.
                          more-Granted cookie rights
                            (check_page is_ip urls security request
                              (framed is_ip urls security response))
                            (ground arith) (page-Granted (framed is_ip urls security response)))
                        (λ fetched. ground arith))
                    (λ shown. ground arith))))

  pub check-has_rights :
      (response : Response) (policy : WebRoutePolicy)
      → (check_web_request is_ip urls security request response policy).0 ≡ true
      → has_rights policy ≡ true
  unfolding Granted
  check-has_rights response policy e = ground (arith, e, check-Granted response policy)
