-- ===== src/Report/Address.antt =====
-- Source addresses: the packing of `ParseXML` (report.go), and the two functions that print a stored
-- address, `renderIP` (store/store.go) and `recordIP` (enrich/observer.go).
use dmarcparser.Base.{
  ℕ, ◌+◌, ◌*◌, ◌/◌, ◌%◌, ◌^◌, Bool, true, false, [], ◌∷◌, ◌++◌, Option, none, some, ltb,
  if◌then◌else◌, ◌==◌, length, All, ◌<◌, ◌≡◌,
}
use dmarcparser.Text.{Bytes, strip_prefix, join}

-- `net.ParseIP`, and `String` of an address that is not IPv4: code of the package `net`.
pub record Net : Type 0 where
  -- 16 bytes, in the IPv4-mapped form for a dotted quad
  pub parse_ip : Bytes → Option Bytes
  pub parse_ip_bytes :
      (s : Bytes) {ip : Bytes} → parse_ip s ≡ some ip → (length ip ≡ 16) × All (λ b. b < 256) ip
  pub print_ipv6 : Bytes → Bytes

abbrev pub mapped_prefix : Bytes
mapped_prefix = 0 ∷ 0 ∷ 0 ∷ 0 ∷ 0 ∷ 0 ∷ 0 ∷ 0 ∷ 0 ∷ 0 ∷ 255 ∷ 255 ∷ []

abbrev pub is_quad : Bytes → Bool
is_quad (a ∷ b ∷ c ∷ d ∷ []) = true
is_quad _ = false

abbrev pub quad_of : Option Bytes → Option Bytes
quad_of none = none
quad_of (some q) = if is_quad q then some q else none

-- `ip.To4()` of a 16-byte address
unfoldable pub to4 : Bytes → Option Bytes
unfolding strip_prefix
to4 ip = quad_of (strip_prefix mapped_prefix ip)

-- `binary.BigEndian.Uint32`
unfoldable pub uint32_be : Bytes → ℕ
uint32_be (a ∷ b ∷ c ∷ d ∷ []) = a * 2 ^ 24 + b * 2 ^ 16 + c * 2 ^ 8 + d
uint32_be _ = 0

-- `v>>24 & 255`, …: the bytes of a uint32
unfoldable pub quad : ℕ → Bytes
quad v = (v / 2 ^ 24 % 256) ∷ (v / 2 ^ 16 % 256) ∷ (v / 2 ^ 8 % 256) ∷ (v % 256) ∷ []

-- `%d` of a byte
unfoldable pub decimal : ℕ → Bytes
decimal n =
    if ltb n 10
    then (b'0' + n) ∷ []
    else if ltb n 100
    then (b'0' + n / 10) ∷ (b'0' + n % 10) ∷ []
    else (b'0' + n / 100) ∷ (b'0' + n / 10 % 10) ∷ (b'0' + n % 10) ∷ []

-- `%d.%d.%d.%d`, which is also how `netip` prints an IPv4 address
unfoldable pub dotted : Bytes → Bytes
unfolding decimal join
dotted [] = []
dotted (b ∷ []) = decimal b
dotted (b ∷ c ∷ bs) = decimal b ++ (b'.' ∷ dotted (c ∷ bs))

-- the `switch` over the parsed address: at most one of the two columns is filled
unfoldable pub columns : Option Bytes → Option ℕ × Option Bytes
unfolding to4 uint32_be
columns none = (none, none)
columns (some ip) = elim (to4 ip) [ some q ↦ (some (uint32_be q), none) | none ↦ (none, some ip) ]

module _ (net : Net) where
  -- `String` of a 16-byte address, for `net.IP` and for `netip.Addr` after `Unmap`
  unfoldable pub print16 : Bytes → Bytes
  unfolding to4 dotted
  print16 ip = elim (to4 ip) [ some q ↦ dotted q | none ↦ net.print_ipv6 ip ]

  abbrev pub print_ipv6_column : Option Bytes → Bytes
  print_ipv6_column none = []
  print_ipv6_column (some ip) = if length ip == 16 then print16 ip else []

  -- `renderIP`: the uint32 conversion drops all but 32 bits
  unfoldable pub render_ip : Option ℕ → Option Bytes → Bytes
  unfolding print16 quad
  render_ip (some v) ip6 = dotted (quad (v % 2 ^ 32))
  render_ip none ip6 = print_ipv6_column ip6
