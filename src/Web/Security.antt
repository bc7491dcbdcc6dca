-- ===== src/Web/Security.antt =====
-- src/web/security.ts: whether a request may reach its route, and what is answered where it may
-- not. The URL class is the record `Urls`; a search is given with and without its parameter `t`.
pub mod Granted
pub mod Cookies
use codedeck.Common.{
  split_at, ℕ, suc, ◌+◌, Text, codes, Bool, true, false, Option, none, some, List, [], ◌∷◌, ◌++◌,
  ◌==◌, ◌&&◌, ◌||◌, not, eqb, length, drop, map, find_by, get_or, starts_with, to_lower, trim,
  is_empty, if◌then◌else◌,
}
use codedeck.Core.Failure.{decimal}
use codedeck.Web.Host.{WebSecurity, default_web_host, is_allowed_web_host, web_base_url}

pub record WebRoutePolicy : Type 0 where
  pub html_page : Bool
  pub api : Bool

pub record Url : Type 0 where
  pub pathname : Text
  pub search : Text
  pub tokens : List Text  -- searchParams.getAll("t")
  pub search_without : Text  -- search after searchParams.delete("t")

pub record Origin : Type 0 where
  pub protocol : Text
  pub host : Text
  pub port : Text

-- `new URL(text, base)` and `new URL(origin)`, which throw where there is none.
pub record Urls : Type 0 where
  pub parse : Text → Text → Option Url
  pub parse_origin : Text → Option Origin

pub record Request : Type 0 where
  pub method : Option Text
  pub url : Option Text
  pub host : Option Text
  pub origin : Option Text
  pub cookie : Option Text

-- The answer so far: the headers that are set, the status once the head is written, and the body
-- once it has ended.
pub record Response : Type 0 where
  pub headers : List (Text × Text)
  pub status : Option ℕ
  pub body : Option Text

abbrev pub web_cookie_max_age_seconds : ℕ
web_cookie_max_age_seconds = 31536000

abbrev pub web_forbidden_message : Text
web_forbidden_message = codes "forbidden"

abbrev pub web_page_forbidden_message : Text
web_page_forbidden_message =
    codes "Run \"codedeck ui\" once in a terminal to open CodeDeck in this browser."

unfoldable pub create_web_security : ℕ → Text → Option Text → List (List Text) → Text → WebSecurity
create_web_security port token host interfaces hostname = record {
  port = port;
  token = token;
  cookie_name = codes "codedeck_ui_token_" ++ decimal port;
  host = get_or host default_web_host;
  network_interfaces = interfaces;
  hostname = hostname;
}

abbrev pub set_header : Text → Text → Response → Response
set_header name value response = record response { headers = (name, value) ∷ response.headers }

abbrev pub write_head : ℕ → Response → Response
write_head status response = record response { status = some status }

abbrev pub end_with : Text → Response → Response
end_with body response = record response { body = some body }

unfoldable pub reject : Text → Response → Response
reject message response = end_with message (
    write_head 403 (set_header (codes "content-type") (codes "text/plain; charset=utf-8") response))

unfoldable pub session_cookie : WebSecurity → Text
session_cookie security =
    security.cookie_name
    ++ codes "="
    ++ security.token
    ++ codes "; Path=/; Max-Age="
    ++ decimal web_cookie_max_age_seconds
    ++ codes "; HttpOnly; SameSite=Strict"

abbrev is_token : WebSecurity → Option Text → Bool
is_token security none = false
is_token security (some cookie) = drop (length security.cookie_name + 1) cookie == security.token

unfoldable pub has_session_cookie : Request → WebSecurity → Bool
has_session_cookie request security = elim request.cookie [
  | none ↦ false
  | some header ↦ is_token security (
      find_by (starts_with (security.cookie_name ++ codes "="))
        (map (λ part. trim part) (split_at b';' header)))
]

abbrev is_own_origin : WebSecurity → Text → Option Origin → Bool
is_own_origin security host none = false
is_own_origin security host (some parsed) =
    parsed.protocol == codes "http:"
    && to_lower parsed.host == to_lower host
    && parsed.port == decimal security.port

abbrev pub is_method : Text → Request → Bool
is_method method request = elim request.method [ none ↦ false | some m ↦ m == method ]

abbrev pub loopback_url : ℕ → Text
loopback_url port = codes "http://127.0.0.1:" ++ decimal port

-- `request.url || "/"`
abbrev pub request_url : Request → Text
request_url request = let url = get_or request.url [] in if is_empty url then codes "/" else url

abbrev pub asked_host : Request → Text
asked_host request = get_or request.host []

-- A redirect ends the request.
abbrev pub or_moved : Option Response → Bool × Response → Bool × Response
or_moved (some moved) checked = (false, moved)
or_moved none checked = checked

module _ (is_ip : Text → ℕ) (urls : Urls) (security : WebSecurity) where
  unfoldable pub has_valid_action_credentials : Request → Bool
  unfolding has_session_cookie
  has_valid_action_credentials request =
      let origin = get_or request.origin [] in
      let host = asked_host request in
      has_session_cookie request security
      && not (is_empty origin)
      && not (is_empty host)
      && is_own_origin security host (urls.parse_origin origin)

  abbrev pub entered_by : Response → Url → List Text → Option Response
  entered_by response url [] = none
  entered_by response url (token ∷ []) =
      if token == security.token
      then some (
          end_with [] (
            set_header (codes "Location") (url.pathname ++ url.search_without) (
              write_head 303 (set_header (codes "Set-Cookie") (session_cookie security) response))))
      else none
  entered_by response url (token ∷ other ∷ tokens) = none

  abbrev pub entered : Response → Option Url → Option Response
  entered response none = none
  entered response (some url) = entered_by response url url.tokens

  -- `none` where there is no redirect.
  unfoldable pub redirect_with_session_cookie : Request → Response → Option Response
  unfolding session_cookie
  redirect_with_session_cookie request response =
      entered response (urls.parse (request_url request) (loopback_url security.port))

  abbrev pub redirected : Response → Option Url → Option Response
  redirected response none = none
  redirected response (some url) = some (
      end_with [] (
        set_header (codes "Location") (loopback_url security.port ++ url.pathname ++ url.search)
          (write_head 302 response)))

  unfoldable pub redirect_to_canonical_host : Request → Response → Option Response
  redirect_to_canonical_host request response =
      if not (web_base_url is_ip security.host security.port == loopback_url security.port)
      then none
      else if not (to_lower (asked_host request) == codes "localhost:" ++ decimal security.port)
      then none
      else redirected response (urls.parse (request_url request) (loopback_url security.port))

  -- The part of a page that is fetched.
  unfoldable pub check_page : Request → Response → Bool × Response
  unfolding redirect_to_canonical_host redirect_with_session_cookie has_session_cookie
      session_cookie reject
  check_page request response = or_moved (redirect_to_canonical_host request response) (
      or_moved (redirect_with_session_cookie request response) (
        if not (has_session_cookie request security)
        then (false, reject web_page_forbidden_message response)
        else (true, set_header (codes "Set-Cookie") (session_cookie security) response)))

  abbrev pub framed : Response → Response
  framed response =
      set_header (codes "Content-Security-Policy") (codes "frame-ancestors 'none'") response

  -- Whether the request is granted, and the answer.
  unfoldable pub check_web_request : Request → Response → WebRoutePolicy → Bool × Response
  unfolding has_valid_action_credentials has_session_cookie check_page reject
  check_web_request request response policy =
      if not (is_allowed_web_host is_ip request.host security)
      then (false, reject web_forbidden_message response)
      else if is_method (codes "POST") request && not (has_valid_action_credentials request)
      then (false, reject web_forbidden_message response)
      else if policy.api && not (has_session_cookie request security)
      then (false, reject web_forbidden_message response)
      else if policy.html_page
      then if is_method (codes "GET") request
        then check_page request (framed response)
        else (true, framed response)
      else (true, response)
