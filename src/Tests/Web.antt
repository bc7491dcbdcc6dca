-- ===== src/Tests/Web.antt =====
-- Requests to a console on port 7777.
use codedeck.Core.Failure.{decimal}
use codedeck.Common.{
  starts_with, to_lower, ℕ, Text, codes, ◌≡◌, refl, true, false, ◌&&◌, ◌||◌, ◌==◌, Option, none,
  some, [], ◌∷◌,
}
use codedeck.Web.Host.{web_base_url, WebSecurity, is_allowed_web_host, is_trusted_machine_hostname}
use codedeck.Web.Security.{
  Urls, Request, Response, create_web_security, check_web_request, has_session_cookie, request_url,
  loopback_url,
}
use codedeck.Web.Security.Cookies.{presents_token, check-cookie}
use codedeck.Web.Server.{WebRoute, page, web_listener, parse_web_port}
use codedeck.Web.Server.Routes.{rights_for, route_of, web_listener-rights}

-- Every address is that of the overview, with the token in it.
abbrev urls : Urls
urls = record {
  parse = λ _ _. some (record {
    pathname = codes "/";
    search = codes "?t=s3";
    tokens = codes "s3" ∷ [];
    search_without = [];
  });
  parse_origin = λ _. none;
}

abbrev no_ip : Text → ℕ
no_ip t = 0

abbrev security : WebSecurity
security = create_web_security 80 (codes "s3") none [] (codes "box")

abbrev asks : Option Text → Request
asks cookie = record {
  method = some (codes "HEAD");
  url = none;
  host = some (codes "localhost:80");
  origin = none;
  cookie = cookie;
}

abbrev entering : Request
entering = record (asks none) { method = some (codes "GET"); host = some (codes "127.0.0.1:80") }

abbrev fresh : Response
fresh = record { headers = []; status = none; body = none }

abbrev overview : WebRoute
overview = record { path = codes "/"; kind = page; handler = λ _ r. (r, none) }

web_listener-rights_example :
    (s : WebSecurity) × (some security ≡ some s)
    × (route_of no_ip urls
          (overview ∷ [])
          (asks none)
          (urls.parse (request_url (asks none)) (loopback_url s.port))
        ≡ some overview)
    × (rights_for no_ip urls (overview ∷ []) (asks none) s overview ≡ true)
unfolding web_listener check_web_request is_allowed_web_host ◌==◌ to_lower decimal
    create_web_security
web_listener-rights_example =
    web_listener-rights no_ip urls (overview ∷ []) (asks none) (some security) fresh overview refl

check-cookie_example :
    (is_allowed_web_host no_ip entering.host security
      && (has_session_cookie entering security || presents_token no_ip urls security entering))
    ≡ true
unfolding check_web_request is_allowed_web_host ◌==◌ to_lower decimal create_web_security
    web_base_url
check-cookie_example =
    check-cookie no_ip urls security entering fresh (record { html_page = true; api = false }) refl
      refl

tailnet : is_trusted_machine_hostname (codes "box.tail1.ts.net") (codes "box") ≡ true
unfolding is_trusted_machine_hostname ◌==◌ starts_with
tailnet = refl

no_tailnet : is_trusted_machine_hostname (codes "box.ts.net") (codes "box") ≡ false
unfolding is_trusted_machine_hostname ◌==◌ starts_with
no_tailnet = refl

port : parse_web_port (some (codes "65535")) ≡ some 65535
unfolding parse_web_port
port = refl

no_port : parse_web_port (some (codes "65536")) ≡ none
unfolding parse_web_port
no_port = refl
