-- ===== src/Store/Sources/Known.antt =====
-- What the upserts do to what is known.
use dmarcparser.Base.{
  Bool-cases, any, ℕ, ◌≡◌, refl, sym, ap, inl, inr, Bool, true, false, ◌&&◌, ◌||◌, Option, none,
  some, List, [], ◌∷◌, arith,
}
use dmarcparser.Base.Int.{ℤ}
use dmarcparser.Store.Sources.{
  DomainSource, is_source, Upserted, bumped, upsert_domain_source, IpMeta, find_meta, Found,
  refresh, new_meta, upsert_meta, keep_row,
}
use dmarcparser.Text.{Bytes, beq, beq_iff, beq_refl}

-- is there a row for the pair?
abbrev pub has_source : Bytes → Bytes → List DomainSource → Bool
has_source d i = any (is_source d i)

abbrev pub is_pair : Bytes → Bytes → Bytes → Bytes → Bool
is_pair domain ip d i = beq domain d && beq ip i

bumped-eq_some :
    (now : ℕ) (row : DomainSource) (rows : List DomainSource) (a b : Option ℤ) {fresh : Bool}
    {seen : ℕ} {rows' : List DomainSource}
    → bumped now row rows a b ≡ some ((fresh, seen), rows')
    → (fresh ≡ false) × ((d i : Bytes) → has_source d i rows' ≡ has_source d i (row ∷ rows))
bumped-eq_some now row rows none b e = absurd (cc)
bumped-eq_some now row rows (some a) none e = absurd (cc)
bumped-eq_some now row rows (some a) (some b) {rows' = rows'} e =
    let same : record row { last_seen = now; msg_count = a; aligned_count = b } ∷ rows ≡ rows' =
      cc in
    (cc, λ d i. ap (has_source d i) (sym same))

keep_row-eq_some :
    (row : DomainSource) (o : Option Upserted) {fresh : Bool} {seen : ℕ} {rows' : List DomainSource}
    → keep_row row o ≡ some ((fresh, seen), rows')
    → (tail : List DomainSource) × (o ≡ some ((fresh, seen), tail)) × (row ∷ tail ≡ rows')
keep_row-eq_some row none e = absurd (cc)
keep_row-eq_some row (some (r, rows)) e = (rows, cc, cc)

is_source-is_pair :
    (domain ip d i : Bytes) (row : DomainSource)
    → is_source domain ip row ≡ true
    → is_source d i row ≡ is_pair domain ip d i
is_source-is_pair domain ip d i row h =
    let a : row.source_domain ≡ domain = ground (arith, beq_iff row.source_domain domain) in
    let b : row.source_ip ≡ ip = ground (arith, beq_iff row.source_ip ip) in rw (a, b) refl

or_again : (a b : Bool) → (a || b) ≡ (a || (a || b))
or_again false b = refl
or_again true b = refl

or_swap : (a b c : Bool) → (a || (b || c)) ≡ (b || (a || c))
or_swap false b c = refl
or_swap true false c = refl
or_swap true true c = refl

module _ (now : ℕ) (domain ip : Bytes) (msgs aligned : ℤ) (serial : ℕ) where
  -- only a pair without a row is reported as new
  pub upsert_domain_source-fresh :
      (rows : List DomainSource) {seen : ℕ} {rows' : List DomainSource}
      → upsert_domain_source now domain ip msgs aligned serial rows ≡ some ((true, seen), rows')
      → has_source domain ip rows ≡ false
  unfolding upsert_domain_source
  upsert_domain_source-fresh [] e = refl
  upsert_domain_source-fresh (row ∷ rows) e = elim (Bool-cases (is_source domain ip row)) [
    | inl h ↦ let (old, same) = bumped-eq_some now row rows _ _ (rw h at e) in absurd (cc)
    | inr h ↦
        let (tail, e', same) = keep_row-eq_some row _ (rw h at e) in
        rw h (upsert_domain_source-fresh rows e')
  ]

  -- an upsert adds its pair and forgets none
  pub upsert_domain_source-has_source :
      (d i : Bytes) (rows : List DomainSource) {fresh : Bool} {seen : ℕ} {rows' : List DomainSource}
      → upsert_domain_source now domain ip msgs aligned serial rows ≡ some ((fresh, seen), rows')
      → has_source d i rows' ≡ (is_pair domain ip d i || has_source d i rows)
  unfolding upsert_domain_source
  upsert_domain_source-has_source d i [] {rows' = rows'} e =
      let same : record {
        source_domain = domain;
        source_ip = ip;
        first_seen = now;
        last_seen = now;
        first_serial = serial;
        msg_count = msgs;
        aligned_count = aligned;
        acked = false;
      }
            ∷ []
          ≡ rows' =
        cc in
      ap (has_source d i) (sym same)
  upsert_domain_source-has_source d i (row ∷ rows) e = elim (Bool-cases (is_source domain ip row)) [
    | inl h ↦
        let (old, same) = bumped-eq_some now row rows _ _ (rw h at e) in
        let pair = is_source-is_pair domain ip d i row h in
        rw (same d i, pair) (or_again (is_pair domain ip d i) _)
    | inr h ↦
        let (tail, e', same) = keep_row-eq_some row _ (rw h at e) in
        let rest = upsert_domain_source-has_source d i rows e' in
        rw (← same, rest) (or_swap (is_source d i row) (is_pair domain ip d i) _)
  ]

pub find_meta-upsert_meta :
    (now : ℕ) (ip : Bytes) (f : Found) (ms : List IpMeta)
    → (m : IpMeta) × (find_meta ip (upsert_meta now ip f ms) ≡ some m) × (m.refreshed_at ≡ some now)
unfolding find_meta upsert_meta
find_meta-upsert_meta now ip f [] = (new_meta now ip f, rw (beq_refl ip) refl, refl)
find_meta-upsert_meta now ip f (m ∷ ms) = elim (Bool-cases (beq m.meta_ip ip)) [
  | inl h ↦ (refresh now f m, rw h (rw h), refl)
  | inr h ↦ let (k, e, r) = find_meta-upsert_meta now ip f ms in (k, rw h (rw h e), r)
]
