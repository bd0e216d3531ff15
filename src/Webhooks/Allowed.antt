-- ===== src/Webhooks/Allowed.antt =====
-- Where a webhook whose URL passes the check may point.
use tasks_platform.Common.{ℕ, ◌<◌, ◌≡◌, ◌≢◌, ◌%◌, ◌^◌, String, true, false, List, [], ◌∷◌}
use tasks_platform.Webhooks.Url.{Url, Platform}
use tasks_platform.Webhooks.Blocks.{is_reserved, is_long_reserved, is_mapped}

abbrev pub AllBelow : ℕ → List ℕ → Type 0
AllBelow limit [] = Unit {0}
AllBelow limit (n ∷ ns) = (n < limit) × AllBelow limit ns

-- An address of 128 bits that lies in no reserved block and stands for none of 32 bits that does.
abbrev pub PublicLong : ℕ → Type 0
PublicLong value =
    (is_long_reserved value ≡ false)
    × (is_mapped value ≡ true → is_reserved (value % 2 ^ 32) ≡ false)

module _ (platform : Platform) where
  open platform use {parse_url, is_ipv4, is_ipv6, split, to_number, ends_with}

  -- Neither this machine nor a name of a local network.
  abbrev pub External : String → Type 0
  External host =
      (host ≢ "localhost")
      × (ends_with host ".localhost" ≡ false)
      × (ends_with host ".local" ≡ false)
      × (ends_with host ".internal" ≡ false)
      × (ends_with host ".localdomain" ≡ false)
      × (ends_with host ".lan" ≡ false)
      × (ends_with host ".home.arpa" ≡ false)
