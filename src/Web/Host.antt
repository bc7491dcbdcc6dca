-- ===== src/Web/Host.antt =====
-- src/config/web-host.ts, and `isAllowedWebHost` of src/web/security.ts: the addresses under which
-- the console answers. `isIP` of node:net, the host name and the network interfaces are given.
use codedeck.Common.{
  ends_with, drop_right, split_at, ℕ, ◌+◌, Text, codes, Bool, false, Option, none, some, List, [],
  ◌∷◌, ◌++◌, ◌==◌, ◌&&◌, ◌||◌, not, eqb, leb, length, any, drop, reverse, includes, starts_with,
  to_lower, is_empty, if◌then◌else◌,
}
use codedeck.Core.Failure.{decimal}

abbrev pub default_web_host : Text
default_web_host = codes "127.0.0.1"

pub record WebSecurity : Type 0 where
  pub port : ℕ
  pub token : Text
  pub cookie_name : Text
  pub host : Text
  pub network_interfaces : List (List Text)  -- the addresses of each interface
  pub hostname : Text

abbrev is_alnum : ℕ → Bool
is_alnum c = (leb b'a' c && leb c b'z') || (leb b'0' c && leb c b'9')

abbrev starts_alnum : Text → Bool
starts_alnum [] = false
starts_alnum (c ∷ s) = is_alnum c

-- `/^[a-z0-9](?:[a-z0-9-]*[a-z0-9])?$/`
unfoldable pub is_label : Text → Bool
is_label label =
    starts_alnum label
    && starts_alnum (reverse label)
    && not (any (λ c. not (is_alnum c || eqb c b'-')) label)

-- The labels, last one first: `net`, `ts`, and at least one more.
unfoldable pub is_tailnet : List Text → Bool
unfolding is_label
is_tailnet (net ∷ ts ∷ label ∷ labels) =
    ts == codes "ts" && net == codes "net" && not (any (λ l. not (is_label l)) (label ∷ labels))
is_tailnet _ = false

unfoldable pub is_trusted_machine_hostname : Text → Text → Bool
unfolding split_at is_tailnet
is_trusted_machine_hostname name hostname =
    name == hostname
    || (not (is_empty hostname)
        && starts_with (hostname ++ codes ".") name
        && is_tailnet (reverse (split_at b'.' (drop (length hostname + 1) name))))

module _ (is_ip : Text → ℕ) where
  abbrev bracketed : Text → Option Text
  bracketed name =
      let ipv6 = drop_right 1 (drop 1 name) in if eqb (is_ip ipv6) 6 then some ipv6 else none

  unfoldable pub host_header_name : Text → ℕ → Option Text
  host_header_name host port =
      let suffix = codes ":" ++ decimal port in
      let name = drop_right (length suffix) host in
      if not (ends_with suffix (to_lower host))
      then none
      else if starts_with (codes "[") name && ends_with (codes "]") name
      then bracketed name
      else if includes (codes ":") name
      then none
      else some name

  abbrev pub is_interface_address : Text → Text → Bool
  is_interface_address name address = not (includes (codes "%") address) && to_lower address == name

  -- The part of `isAllowedWebHost` behind the header's name.
  unfoldable pub is_allowed_name : WebSecurity → Option Text → Bool
  unfolding is_trusted_machine_hostname
  is_allowed_name security none = false
  is_allowed_name security (some name) =
      let lower = to_lower name in
      not (is_empty name)
      && not (includes (codes "%") name)
      && ((not (security.host == codes "0.0.0.0")
            && not (security.host == codes "::")
            && lower == to_lower security.host)
          || is_trusted_machine_hostname lower (to_lower security.hostname)
          || any (λ entries. any (is_interface_address lower) entries) security.network_interfaces)

  abbrev pub is_loopback : Text → ℕ → Bool
  is_loopback host port =
      let normalized = to_lower host in
      normalized == codes "127.0.0.1:" ++ decimal port
      || normalized == codes "localhost:" ++ decimal port

  unfoldable pub is_allowed_web_host : Option Text → WebSecurity → Bool
  unfolding host_header_name is_allowed_name
  is_allowed_web_host none security = false
  is_allowed_web_host (some host) security =
      not (is_empty host)
      && (is_loopback host security.port
          || (not (security.host == default_web_host)
              && is_allowed_name security (host_header_name host security.port)))

  unfoldable pub web_base_url : Text → ℕ → Text
  web_base_url host port =
      let url_host =
        if host == default_web_host || host == codes "0.0.0.0" || host == codes "::"
        then default_web_host
        else if eqb (is_ip host) 6
        then codes "[" ++ host ++ codes "]"
        else host in
      codes "http://" ++ url_host ++ codes ":" ++ decimal port
