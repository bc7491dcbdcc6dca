-- ===== src/Web/Server/Routes.antt =====
-- `createWebServer` of src/web/server.ts: which requests reach the handler of a route.
use codedeck.Common.{
  ℕ, Text, ◌≡◌, refl, subst, Bool, true, false, Option, none, some, List, arith, find_by, ◌==◌,
  if◌then◌else◌,
}
use codedeck.Web.Host.{WebSecurity}
use codedeck.Web.Security.{
  Urls, Url, Request, Response, check_web_request, request_url, loopback_url,
}
use codedeck.Web.Security.Granted.{has_rights, check-has_rights}
use codedeck.Web.Server.{
  dispatch_url, WebRoute, web_listener, dispatch_request, dispatch_to, policy_of, serve, refused,
}

module _ (is_ip : Text → ℕ) (urls : Urls) (routes : List WebRoute) (request : Request) where
  abbrev pub rights_for : WebSecurity → WebRoute → Bool
  rights_for security route = has_rights is_ip urls security request (policy_of (some route))

  serve-route :
      (o : Option WebRoute) (r : Response) (route : WebRoute)
      → (serve o request r).route ≡ some route
      → o ≡ some route
  serve-route none r route e = ground arith
  serve-route (some x) r route e = e

  if_served :
      (b : Bool) (o : Option WebRoute) (r r' : Response) (route : WebRoute)
      → (if b then serve o request r else refused r').route ≡ some route
      → (b ≡ true) × (o ≡ some route)
  if_served true o r r' route e = (refl, serve-route o r route e)
  if_served false o r r' route e = ground arith

  dispatch_to-rights :
      (security : WebSecurity) (response : Response) (o : Option WebRoute) (route : WebRoute)
      → (dispatch_to is_ip urls routes security request response o).route ≡ some route
      → (rights_for security route ≡ true) × (o ≡ some route)
  dispatch_to-rights security response o route e =
      let checked = check_web_request is_ip urls security request response (policy_of o) in
      let ran = if_served checked.0 o checked.1 checked.1 route e in
      (
        subst (λ x. has_rights is_ip urls security request (policy_of x) ≡ true) ran.1
            (check-has_rights is_ip urls security request response (policy_of o) ran.0),
        ran.1,
      )

  abbrev pub route_of : Option Url → Option WebRoute
  route_of none = none
  route_of (some url) = find_by (λ r. r.path == url.pathname) routes

  dispatch-rights :
      (security : WebSecurity) (response : Response) (o : Option Url) (route : WebRoute)
      → (dispatch_url is_ip urls routes security request response o).route ≡ some route
      → (rights_for security route ≡ true) × (route_of o ≡ some route)
  dispatch-rights security response none route e = ground arith
  dispatch-rights security response (some url) route e =
      dispatch_to-rights security response (route_of (some url)) route e

  -- A handler runs only on a server that has started, for a request whose path is that of its
  -- route and whose host is one of the console's; a POST then shows the session cookie and comes
  -- from the console's own origin, and a call of the API and the fetch of a page show the cookie.
  pub web_listener-rights :
      (started : Option WebSecurity) (response : Response) (route : WebRoute)
      → (web_listener is_ip urls routes started request response).route ≡ some route
      → (security : WebSecurity) × (started ≡ some security)
        × (route_of (urls.parse (request_url request) (loopback_url security.port)) ≡ some route)
        × (rights_for security route ≡ true)
  unfolding web_listener dispatch_request
  web_listener-rights none response route e = ground arith
  web_listener-rights (some security) response route e =
      let ran =
        dispatch-rights security response
          (urls.parse (request_url request) (loopback_url security.port)) route e in
      (security, refl, ran.1, ran.0)
