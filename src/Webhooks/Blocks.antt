-- ===== src/Webhooks/Blocks.antt =====
-- The addresses that webhook-url.ts refuses are those of the reserved blocks.
use tasks_platform.Common.{
  ℕ, ◌+◌, ◌*◌, ◌/◌, ◌%◌, ◌^◌, ◌<◌, ◌≡◌, refl, Bool, true, false, ◌||◌, ◌&&◌, [], ◌∷◌, ◌==◌, leb,
  arith, sym, ap, ◌∙◌, if◌then◌else◌,
}
use tasks_platform.Webhooks.Url.{is_private_ipv4, is_private_groups, without_low, starts_zero}

-- The number of an address of four octets, and that of one of eight groups.
abbrev pub address : ℕ → ℕ → ℕ → ℕ → ℕ
address a b c d = ((a * 256 + b) * 256 + c) * 256 + d

abbrev pub long_address : ℕ → ℕ → ℕ → ℕ → ℕ → ℕ → ℕ → ℕ → ℕ
long_address g0 g1 g2 g3 g4 g5 g6 g7 =
    ((((((g0 * 65536 + g1) * 65536 + g2) * 65536 + g3) * 65536 + g4) * 65536 + g5) * 65536 + g6)
      * 65536
    + g7

-- Do two addresses agree but for their lowest bits, of which there are `free`?
abbrev pub agree : ℕ → ℕ → ℕ → Bool
agree free base value = value / 2 ^ free == base / 2 ^ free

-- 0.0.0.0/8, 10.0.0.0/8, 127.0.0.0/8, 100.64.0.0/10, 169.254.0.0/16, 172.16.0.0/12, 192.0.0.0/24,
-- 192.168.0.0/16, 198.18.0.0/15, and 224.0.0.0/3, all that is multicast or reserved
abbrev pub is_reserved : ℕ → Bool
is_reserved value =
    agree 24 (address 0 0 0 0) value
    || agree 24 (address 10 0 0 0) value
    || agree 24 (address 127 0 0 0) value
    || agree 22 (address 100 64 0 0) value
    || agree 16 (address 169 254 0 0) value
    || agree 20 (address 172 16 0 0) value
    || agree 8 (address 192 0 0 0) value
    || agree 16 (address 192 168 0 0) value
    || agree 17 (address 198 18 0 0) value
    || agree 29 (address 224 0 0 0) value

-- ::/127, fc00::/7, fe80::/10 and ff00::/8
abbrev pub is_long_reserved : ℕ → Bool
is_long_reserved value =
    agree 1 0 value
    || agree 121 (64512 * 2 ^ 112) value
    || agree 118 (65152 * 2 ^ 112) value
    || agree 120 (65280 * 2 ^ 112) value

-- ::ffff:0:0/96, the addresses that stand for one of four octets
abbrev pub is_mapped : ℕ → Bool
is_mapped value = agree 32 (65535 * 2 ^ 32) value

module _ (a b c d : ℕ) (hb : b < 256) (hc : c < 256) (hd : d < 256) where
  q24 : address a b c d / 16777216 ≡ a
  q24 = omega arith

  q22 : address a b c d / 4194304 ≡ a * 4 + b / 64
  q22 = omega arith

  q16 : address a b c d / 65536 ≡ a * 256 + b
  q16 = omega arith

  q20 : address a b c d / 1048576 ≡ a * 16 + b / 16
  q20 = omega arith

  q8 : address a b c d / 256 ≡ (a * 256 + b) * 256 + c
  q8 = omega arith

  q17 : address a b c d / 131072 ≡ a * 128 + b / 2
  q17 = omega arith

  q29 : address a b c d / 536870912 ≡ a / 32
  q29 = omega arith

carrier : (a b : ℕ) → b < 256 → (a == 100 && leb 64 b && leb b 127) ≡ (a * 4 + b / 64 == 401)
carrier a b hb = ground arith

link_local : (a b : ℕ) → b < 256 → (a == 169 && b == 254) ≡ (a * 256 + b == 43518)
link_local a b hb = ground arith

private_12 : (a b : ℕ) → b < 256 → (a == 172 && leb 16 b && leb b 31) ≡ (a * 16 + b / 16 == 2753)
private_12 a b hb = ground arith

assignments :
    (a b c : ℕ)
    → b < 256
    → c < 256
    → (a == 192 && b == 0 && c == 0) ≡ ((a * 256 + b) * 256 + c == 12582912)
assignments a b c hb hc = ground arith

private_16 : (a b : ℕ) → b < 256 → (a == 192 && b == 168) ≡ (a * 256 + b == 49320)
private_16 a b hb = ground arith

benchmarking : (a b : ℕ) → b < 256 → (a == 198 && (b == 18 || b == 19)) ≡ (a * 128 + b / 2 == 25353)
benchmarking a b hb = ground arith

high : (a : ℕ) → a < 256 → leb 224 a ≡ (a / 32 == 7)
high a ha = ground arith

-- An address of four octets is refused just if it lies in a reserved block.
pub is_private_ipv4_lem :
    (a b c d : ℕ)
    → a < 256
    → b < 256
    → c < 256
    → d < 256
    → is_private_ipv4 (a ∷ b ∷ c ∷ d ∷ []) ≡ is_reserved (address a b c d)
unfolding is_private_ipv4
is_private_ipv4_lem a b c d ha hb hc hd =
    rw
      (
        q24 a b c d hb hc hd,
        q22 a b c d hb hc hd,
        q16 a b c d hb hc hd,
        q20 a b c d hb hc hd,
        q8 a b c d hb hc hd,
        q17 a b c d hb hc hd,
        q29 a b c d hb hc hd,
        carrier a b hb,
        link_local a b hb,
        private_12 a b hb,
        assignments a b c hb hc,
        private_16 a b hb,
        benchmarking a b hb,
        high a ha,
      )
      refl

mapped_apart : (v : ℕ) → is_mapped v ≡ true → is_long_reserved v ≡ false
mapped_apart v h = ground arith

choose :
    (mapped tail rest : Bool)
    → (mapped ≡ true → rest ≡ false)
    → (if mapped then tail else rest) ≡ (rest || (mapped && tail))
choose true tail rest apart = rw (apart refl) refl
choose false tail rest apart = ground arith

zero_group : (v g : ℕ) → (v * 65536 + g == 0) ≡ (v == 0 && g == 0)
zero_group v g = ground arith

zero_low : (v g : ℕ) → g < 65536 → (v * 32768 + g / 2 == 0) ≡ (v == 0 && (g == 0 || g == 1))
zero_low v g h = ground arith

nested :
    (a b c d e f g h : Bool)
    → ((a && (b && (c && (d && (e && (f && (g && true))))))) && h)
      ≡ (((((((a && b) && c) && d) && e) && f) && g) && h)
nested a b c d e f g h = ground arith

module _ (g0 g1 g2 g3 g4 g5 g6 g7 : ℕ) (h0 : g0 < 65536) (h1 : g1 < 65536) (h2 : g2 < 65536)
    (h3 : g3 < 65536) (h4 : g4 < 65536) (h5 : g5 < 65536) (h6 : g6 < 65536) (h7 : g7 < 65536) where
  whole : ℕ
  whole = long_address g0 g1 g2 g3 g4 g5 g6 g7

  l1 : whole / 2 ≡ (
      ((((((g0 * 65536 + g1) * 65536 + g2) * 65536 + g3) * 65536 + g4) * 65536 + g5) * 65536 + g6)
        * 32768
      + g7 / 2)
  unfolding whole
  l1 = omega arith

  l121 : whole / 2 ^ 121 ≡ g0 / 512
  unfolding whole
  l121 = omega arith

  l118 : whole / 2 ^ 118 ≡ g0 / 64
  unfolding whole
  l118 = omega arith

  l120 : whole / 2 ^ 120 ≡ g0 / 256
  unfolding whole
  l120 = omega arith

  l32 : whole / 2 ^ 32 ≡ ((((g0 * 65536 + g1) * 65536 + g2) * 65536 + g3) * 65536 + g4) * 65536 + g5
  unfolding whole
  l32 = omega arith

  m32 : whole % 2 ^ 32 ≡ address (g6 / 256) (g6 % 256) (g7 / 256) (g7 % 256)
  unfolding whole
  m32 = omega arith

  local :
      (starts_zero 7 (g0 ∷ g1 ∷ g2 ∷ g3 ∷ g4 ∷ g5 ∷ g6 ∷ g7 ∷ []) && (g7 == 0 || g7 == 1))
      ≡ agree 1 0 whole
  local =
      rw
        (
          l1,
          zero_low
              ((((((g0 * 65536 + g1) * 65536 + g2) * 65536 + g3) * 65536 + g4) * 65536 + g5) * 65536
                + g6)
              g7 h7,
          zero_group (((((g0 * 65536 + g1) * 65536 + g2) * 65536 + g3) * 65536 + g4) * 65536 + g5)
              g6,
          zero_group ((((g0 * 65536 + g1) * 65536 + g2) * 65536 + g3) * 65536 + g4) g5,
          zero_group (((g0 * 65536 + g1) * 65536 + g2) * 65536 + g3) g4,
          zero_group ((g0 * 65536 + g1) * 65536 + g2) g3,
          zero_group (g0 * 65536 + g1) g2,
          zero_group g0 g1,
        )
        (nested (g0 == 0) (g1 == 0) (g2 == 0) (g3 == 0) (g4 == 0) (g5 == 0) (g6 == 0)
          (g7 == 0 || g7 == 1))

  mapped :
      (starts_zero 5 (g0 ∷ g1 ∷ g2 ∷ g3 ∷ g4 ∷ g5 ∷ g6 ∷ g7 ∷ []) && (g5 == 65535))
      ≡ is_mapped whole
  mapped = rw (l32) (ground arith)

  unique_local : (without_low 9 g0 == 64512) ≡ agree 121 (64512 * 2 ^ 112) whole
  unique_local = rw (l121) (ground arith)

  link_local_long : (without_low 6 g0 == 65152) ≡ agree 118 (65152 * 2 ^ 112) whole
  link_local_long = rw (l118) (ground arith)

  multicast : (without_low 8 g0 == 65280) ≡ agree 120 (65280 * 2 ^ 112) whole
  multicast = rw (l120) (ground arith)

  reserved_tail :
      is_private_ipv4 (g6 / 256 ∷ g6 % 256 ∷ g7 / 256 ∷ g7 % 256 ∷ [])
      ≡ is_reserved (whole % 2 ^ 32)
  reserved_tail =
      is_private_ipv4_lem (g6 / 256) (g6 % 256) (g7 / 256) (g7 % 256) (omega arith) (omega arith)
        (omega arith) (omega arith)
      ∙ ap is_reserved (sym m32)

  -- An address of eight groups is refused just if it lies in a reserved block, or stands for one of four
  -- octets that does.
  pub is_private_groups_lem : is_private_groups (g0 ∷ g1 ∷ g2 ∷ g3 ∷ g4 ∷ g5 ∷ g6 ∷ g7 ∷ []) ≡ (
      is_long_reserved (long_address g0 g1 g2 g3 g4 g5 g6 g7)
      || (is_mapped (long_address g0 g1 g2 g3 g4 g5 g6 g7)
          && is_reserved (long_address g0 g1 g2 g3 g4 g5 g6 g7 % 2 ^ 32)))
  unfolding is_private_groups whole
  is_private_groups_lem =
      rw (local, mapped, unique_local, link_local_long, multicast, reserved_tail)
        (choose _ _ _ (mapped_apart (long_address g0 g1 g2 g3 g4 g5 g6 g7)))
