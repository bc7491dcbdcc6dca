-- ===== src/Web/Server.antt =====
-- src/web/server.ts, with the port of src/config/web-port.ts: the port of the command line, the gate before the server has started, and the
-- choice of the route. A handler makes an answer of a request and the answer so far, and may throw
-- a message; the handlers that answer later are left out.
pub mod Routes
use codedeck.Common.{
  digits_value, is_digit, ℕ, ◌+◌, ◌*◌, ◌-◌, Text, codes, Bool, true, false, Option, none, some,
  List, [], ◌∷◌, ◌++◌, ◌==◌, ◌&&◌, ◌||◌, not, leb, any, eqb, or_else, is_empty, is_some, find_by,
  json_string, if◌then◌else◌,
}
use codedeck.Web.Host.{WebSecurity}
use codedeck.Web.Security.{
  Urls, Url, Request, Response, WebRoutePolicy, check_web_request, set_header, write_head, end_with,
  loopback_url, request_url,
}

pub data RouteKind : Type 0 where
  page api : RouteKind

pub record WebRoute : Type 0 where
  pub path : Text
  pub kind : RouteKind
  pub handler : Request → Response → Response × Option Text

abbrev pub default_web_port : ℕ
default_web_port = 7777

-- `none` stands for the InvalidArgumentError.
unfoldable pub parse_web_port : Option Text → Option ℕ
unfolding digits_value
parse_web_port none = some default_web_port
parse_web_port (some raw) =
    let port = digits_value 0 raw in
    if is_empty raw || any (λ c. not (is_digit c)) raw
    then none
    else if eqb port 0 || not (leb port 65535)
    then none
    else some port

abbrev pub plain_text : Text
plain_text = codes "text/plain; charset=utf-8"

abbrev json_text : Text
json_text = codes "application/json; charset=utf-8"

abbrev pub answer : ℕ → Text → Text → Response → Response
answer status content_type body response =
    end_with body (write_head status (set_header (codes "content-type") content_type response))

abbrev pub error_json : Text → Text
error_json message = codes "{\"error\":" ++ json_string message ++ codes "}"

unfoldable pub fail_request : Response → Text → Response
fail_request response error =
    if is_some response.status
    then record response { body = or_else response.body (some []) }
    else answer 500 json_text (error_json error) response

abbrev pub failed : Response × Option Text → Response
failed (response, none) = response
failed (response, some error) = fail_request response error

abbrev pub policy_of : Option WebRoute → WebRoutePolicy
policy_of none = record { html_page = false; api = false }
policy_of (some route) = elim route.kind [
  | page ↦ record { html_page = true; api = false }
  | api ↦ record { html_page = false; api = true }
]

-- The route whose handler ran, and the answer.
pub record Served : Type 0 where
  pub route : Option WebRoute
  pub response : Response

abbrev pub refused : Response → Served
refused response = record { route = none; response = response }

abbrev pub serve : Option WebRoute → Request → Response → Served
serve none request response =
    refused (answer 404 json_text (codes "{\"error\":\"not found\"}") response)
serve (some route) request response = record {
  route = some route;
  response = failed (route.handler request response);
}

module _ (is_ip : Text → ℕ) (urls : Urls) (routes : List WebRoute) where
  abbrev pub dispatch_to : WebSecurity → Request → Response → Option WebRoute → Served
  dispatch_to security request response route =
      let checked = check_web_request is_ip urls security request response (policy_of route) in
      if checked.0 then serve route request checked.1 else refused checked.1

  abbrev pub dispatch_url : WebSecurity → Request → Response → Option Url → Served
  dispatch_url security request response none =
      refused (answer 400 plain_text (codes "bad request") response)
  dispatch_url security request response (some url) =
      dispatch_to security request response (find_by (λ r. r.path == url.pathname) routes)

  unfoldable pub dispatch_request : WebSecurity → Request → Response → Served
  dispatch_request security request response =
      dispatch_url security request response
        (urls.parse (request_url request) (loopback_url security.port))

  -- The listener of `createWebServer`: no security means that the server is still starting.
  unfoldable pub web_listener : Option WebSecurity → Request → Response → Served
  unfolding dispatch_request
  web_listener none request response =
      refused (answer 503 plain_text (codes "server starting") response)
  web_listener (some security) request response = dispatch_request security request response
