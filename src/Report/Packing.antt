-- ===== src/Report/Packing.antt =====
-- A source address survives the packing into the two columns and the printing from them.
use dmarcparser.Base.{
  All, ℕ, ◌%◌, ◌^◌, ◌<◌, ◌≡◌, some, [], ◌∷◌, arith, ◌==◌, Bool-cases, length, refl, ap, inl, inr,
  true, Option, none,
}
use dmarcparser.Report.Address.{
  to4, uint32_be, quad, dotted, Net, mapped_prefix, is_quad, quad_of, columns, print16, render_ip,
}
use dmarcparser.Text.{Bytes, strip_prefix}
use mathlib.Core.Path.{subst}

pack_quad :
    (a b c d : ℕ)
    → a < 256
    → b < 256
    → c < 256
    → d < 256
    → quad (uint32_be (a ∷ b ∷ c ∷ d ∷ []) % 2 ^ 32) ≡ a ∷ b ∷ c ∷ d ∷ []
unfolding quad uint32_be
pack_quad a b c d ha hb hc hd = ground arith

-- The four bytes behind an IPv4-mapped prefix are bytes.
strip_prefix-All :
    (p s : Bytes) {r : Bytes}
    → strip_prefix p s ≡ some r
    → All (λ b. b < 256) s
    → All (λ b. b < 256) r
unfolding strip_prefix
strip_prefix-All [] s e h = ground arith
strip_prefix-All (x ∷ p) [] e h = cc
strip_prefix-All (x ∷ p) (c ∷ s) e h = elim (Bool-cases (x == c)) [
  | inl same ↦ strip_prefix-All p s (rw same at e) h.1
  | inr other ↦ absurd (cc (rw other at e))
]

quad-uint32_be :
    (q : Bytes) → is_quad q ≡ true → All (λ b. b < 256) q → quad (uint32_be q % 2 ^ 32) ≡ q
quad-uint32_be (a ∷ b ∷ c ∷ d ∷ []) e (ha, (hb, (hc, (hd, _)))) = pack_quad a b c d ha hb hc hd
quad-uint32_be _ e h = absurd (cc)

quad_of-eq_some :
    (o : Option Bytes) {q : Bytes} → quad_of o ≡ some q → (o ≡ some q) × (is_quad q ≡ true)
quad_of-eq_some none e = cc
quad_of-eq_some (some r) {q} e = elim (Bool-cases (is_quad r)) [
  | inl four ↦
      let same : some r ≡ some q = rw four at e in
      let equal : r ≡ q = cc (same) in (same, subst (λ z. is_quad z ≡ true) equal four)
  | inr other ↦ absurd (cc (rw other at e))
]

to4-quad :
    (ip : Bytes) {q : Bytes}
    → to4 ip ≡ some q
    → All (λ b. b < 256) ip
    → quad (uint32_be q % 2 ^ 32) ≡ q
unfolding to4
to4-quad ip {q} e h =
    let found = quad_of-eq_some (strip_prefix mapped_prefix ip) e in
    quad-uint32_be q found.1 (strip_prefix-All mapped_prefix ip found.0 h)

columns_ipv6 : (ip : Bytes) → to4 ip ≡ none → columns (some ip) ≡ (none, some ip)
unfolding columns
columns_ipv6 ip e = rw e

render_columns :
    (net : Net) (ip : Bytes) (o : Option Bytes)
    → to4 ip ≡ o
    → length ip ≡ 16
    → All (λ b. b < 256) ip
    → render_ip net (columns (some ip)).0 (columns (some ip)).1 ≡ print16 net ip
render_columns net ip none e n h = rw (columns_ipv6 ip e) (unfold render_ip in rw n)
render_columns net ip (some q) e n h =
    unfold columns render_ip print16 in rw e (ap dotted (to4-quad ip e h))

-- Whatever address `ParseXML` reads, IPv4 or IPv6, the columns that it fills print back as that
-- address.
pub render_ip-columns :
    (net : Net) (s ip : Bytes)
    → net.parse_ip s ≡ some ip
    → render_ip net (columns (net.parse_ip s)).0 (columns (net.parse_ip s)).1 ≡ print16 net ip
render_ip-columns net s ip e =
    let (n, h) = net.parse_ip_bytes s e in rw e (render_columns net ip (to4 ip) refl n h)
