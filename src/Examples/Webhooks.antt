-- ===== src/Examples/Webhooks.antt =====
-- The check of a webhook's URL, for a platform that knows one URL: an address of eight groups.
use tasks_platform.Common.{
  ◌≡◌, arith, false, ◌||◌, ◌&&◌, ◌%◌, ◌^◌, none, some, [], ◌∷◌, str_eq, if◌then◌else◌,
}
use tasks_platform.Webhooks.Url.{Url, Platform, is_private_groups}
use tasks_platform.Webhooks.Blocks.{
  long_address, is_reserved, is_long_reserved, is_mapped, is_private_groups_lem,
}

abbrev hook : Url
hook = record { protocol = "https:"; username = ""; password = ""; hostname = "[2606:4700::1111]" }

abbrev platform : Platform
platform = record {
  parse_url = λ s. if str_eq s "https://[2606:4700::1111]" then some hook else none;
  is_ipv4 = λ s. false;
  is_ipv6 = λ s. str_eq s "2606:4700::1111";
  to_lower_case = λ s. s;
  without_final_dot = λ s. s;
  starts_with = λ s prefix. str_eq prefix "[";
  ends_with = λ s suffix. str_eq suffix "]";
  includes = λ s part. false;
  slice_inner = λ s. "2606:4700::1111";
  split = λ s separator.
      if str_eq separator "::"
      then "2606:4700" ∷ "1111" ∷ []
      else if str_eq s "1111"
      then "1111" ∷ []
      else "2606" ∷ "4700" ∷ [];
  to_number = λ s. 0;
  parse_hex = λ s. if str_eq s "2606" then 9734 else if str_eq s "4700" then 18176 else 4369;
}

-- ::ffff:10.0.0.1
is_private_groups_lem_example : is_private_groups (0 ∷ 0 ∷ 0 ∷ 0 ∷ 0 ∷ 65535 ∷ 2560 ∷ 1 ∷ []) ≡ (
    is_long_reserved (long_address 0 0 0 0 0 65535 2560 1)
    || (is_mapped (long_address 0 0 0 0 0 65535 2560 1)
        && is_reserved (long_address 0 0 0 0 0 65535 2560 1 % 2 ^ 32)))
is_private_groups_lem_example =
    is_private_groups_lem 0 0 0 0 0 65535 2560 1 (omega arith) (omega arith) (omega arith)
      (omega arith) (omega arith) (omega arith) (omega arith) (omega arith)
