-- ===== src/Webhooks/Url.antt =====
-- apps/api/src/modules/webhooks/webhook-url.ts. Bits that are shifted or masked are quotients and
-- remainders. What the URL class, node:net and the text functions of JavaScript do is a parameter.
use tasks_platform.Common.{
  ℕ, zero, suc, ◌+◌, ◌-◌, ◌*◌, ◌/◌, ◌%◌, ◌^◌, String, Bool, true, false, not, ◌||◌, ◌&&◌, Option,
  none, some, List, [], ◌∷◌, ◌++◌, map, ◌==◌, leb, str_eq, get_elem?, is_id, length, map_option,
  if◌then◌else◌,
}
use tasks_platform.Errors.{app, other, unprocessable_entity}
use mathlib.Core.List.{flat_map}
use tasks_platform.Database.Client.{Result, ok, err}

abbrev or_zero : Option ℕ → ℕ
or_zero none = 0
or_zero (some n) = n

-- The component that `const [a = 0, …] = list` takes at a place.
abbrev pub item : List ℕ → ℕ → ℕ
item list i = or_zero (get_elem? list i)

abbrev pub is_private_octets : ℕ → ℕ → ℕ → Bool
is_private_octets a b c =
    a == 0
    || a == 10
    || a == 127
    || (a == 100 && leb 64 b && leb b 127)
    || (a == 169 && b == 254)
    || (a == 172 && leb 16 b && leb b 31)
    || (a == 192 && b == 0 && c == 0)
    || (a == 192 && b == 168)
    || (a == 198 && (b == 18 || b == 19))
    || leb 224 a

unfoldable pub is_private_ipv4 : List ℕ → Bool
is_private_ipv4 octets = is_private_octets (item octets 0) (item octets 1) (item octets 2)

-- `groups.slice(0, n).every((g) => g === 0)`
abbrev pub starts_zero : ℕ → List ℕ → Bool
starts_zero zero groups = true
starts_zero (suc n) [] = true
starts_zero (suc n) (g ∷ groups) = g == 0 && starts_zero n groups

-- `g & mask` on 16 bits, where the mask clears the lowest bits, of which there are n
abbrev pub without_low : ℕ → ℕ → ℕ
without_low n g = g % 65536 / 2 ^ n * 2 ^ n

-- `isPrivateIPv6`, from the groups on
unfoldable pub is_private_groups : List ℕ → Bool
unfolding is_private_ipv4
is_private_groups groups =
    if starts_zero 5 groups && is_id (get_elem? groups 5) 65535
    then is_private_ipv4
        (item groups 6 / 256 ∷ item groups 6 % 256 ∷ item groups 7 / 256 ∷ item groups 7 % 256 ∷ [])
    else (starts_zero 7 groups && (is_id (get_elem? groups 7) 0 || is_id (get_elem? groups 7) 1))
      || without_low 9 (item groups 0) == 64512
      || without_low 6 (item groups 0) == 65152
      || without_low 8 (item groups 0) == 65280

-- What of a parsed URL is looked at.
pub record Url : Type 0 where
  pub protocol : String
  pub username : String
  pub password : String
  pub hostname : String

-- `new URL(text)`, none if it throws; `isIPv4` and `isIPv6`; and the functions on texts.
pub record Platform : Type 0 where
  pub parse_url : String → Option Url
  pub is_ipv4 : String → Bool
  pub is_ipv6 : String → Bool
  pub to_lower_case : String → String
  pub without_final_dot : String → String
  pub starts_with : String → String → Bool
  pub ends_with : String → String → Bool
  pub includes : String → String → Bool
  pub slice_inner : String → String
  pub split : String → String → List String
  pub to_number : String → ℕ
  pub parse_hex : String → ℕ

-- `new Array(n).fill(0)`
abbrev zeros : ℕ → List ℕ
zeros zero = []
zeros (suc n) = 0 ∷ zeros n

abbrev or_empty : Option String → String
or_empty none = ""
or_empty (some s) = s

abbrev pub internal_host_suffixes : List String
internal_host_suffixes =
    ".localhost" ∷ ".local" ∷ ".internal" ∷ ".localdomain" ∷ ".lan" ∷ ".home.arpa" ∷ []

abbrev pub not_allowed : String → Result (Unit {0})
not_allowed detail = err (app (unprocessable_entity (some detail)))

-- An internal name or a private address is refused; none for an address is a RangeError.
abbrev pub decide : Bool → Option Bool → Result (Unit {0})
decide internal none = err (other "RangeError" "Invalid array length")
decide internal (some private) =
    if internal || private
    then not_allowed "The webhook URL must point to a public address"
    else ok tt

module _ (platform : Platform) where
  -- An octet is below 256, so that the bits of two are joined by a sum.
  abbrev pub parse_group : String → List ℕ
  parse_group group =
      if platform.includes group "."
      then (let octets = map platform.to_number (platform.split group ".") in
          (item octets 0 * 256 + item octets 1) ∷ (item octets 2 * 256 + item octets 3) ∷ [])
      else platform.parse_hex group ∷ []

  abbrev pub to_groups : String → List ℕ
  to_groups part = if str_eq part "" then [] else flat_map parse_group (platform.split part ":")

  -- none where `new Array(8 - …)` throws
  abbrev pub filled : List ℕ → Option String → Option (List ℕ)
  filled head none = some head
  filled head (some tail) =
      let groups = to_groups tail in
      if leb (length head + length groups) 8
      then some (head ++ (zeros (8 - length head - length groups) ++ groups))
      else none

  unfoldable pub expand_ipv6 : String → Option (List ℕ)
  expand_ipv6 address =
      let parts = platform.split address "::" in
      filled (to_groups (or_empty (get_elem? parts 0))) (get_elem? parts 1)

  unfoldable pub is_private_ipv6 : String → Option Bool
  unfolding expand_ipv6 is_private_groups
  is_private_ipv6 address = map_option is_private_groups (expand_ipv6 address)

  abbrev pub bare_host : Url → String
  bare_host url =
      let host = platform.without_final_dot (platform.to_lower_case url.hostname) in
      if platform.starts_with host "[" && platform.ends_with host "]"
      then platform.slice_inner host
      else host

  abbrev pub has_suffix : List String → String → Bool
  has_suffix [] host = false
  has_suffix (suffix ∷ rest) host = platform.ends_with host suffix || has_suffix rest host

  abbrev pub is_internal_name : String → Bool
  is_internal_name host = str_eq host "localhost" || has_suffix internal_host_suffixes host

  unfoldable pub is_private_address : String → Option Bool
  unfolding is_private_ipv6 is_private_ipv4
  is_private_address host =
      if platform.is_ipv4 host && is_private_ipv4 (map platform.to_number (platform.split host "."))
      then some true
      else if platform.is_ipv6 host
      then is_private_ipv6 host
      else some false

  unfoldable pub check_url : Option Url → Result (Unit {0})
  unfolding is_private_address
  check_url none = not_allowed "The webhook URL is not valid"
  check_url (some url) =
      if not (str_eq url.protocol "https:")
      then not_allowed "The webhook URL must use https"
      else if not (str_eq url.username "") || not (str_eq url.password "")
      then not_allowed "The webhook URL must not contain credentials"
      else decide (is_internal_name (bare_host url)) (is_private_address (bare_host url))

  unfoldable pub assert_webhook_url_allowed : Bool → String → Result (Unit {0})
  unfolding check_url
  assert_webhook_url_allowed allow_private raw_url =
      if allow_private then ok tt else check_url (platform.parse_url raw_url)
