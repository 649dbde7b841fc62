-- ===== src/Store/Sources.antt =====
-- The tables `domain_source` and `ip_meta` of parser/internal/store/store_intel.go. Times are Unix
-- seconds; an address is told by its printed form.
pub mod Known
pub mod Listed
pub mod Reviewed
use dmarcparser.Base.{
  ltb, if◌then◌else◌, ℕ, ◌+◌, Bool, true, false, ◌&&◌, Option, none, some, List, [], ◌∷◌,
}
use dmarcparser.Base.Int.{ℤ, add_bigint}
use dmarcparser.Text.{Bytes, beq}
use mathlib.Core.Option

pub record DomainSource : Type 0 where
  pub source_domain : Bytes
  pub source_ip : Bytes
  pub first_seen : ℕ
  pub last_seen : ℕ
  pub first_serial : ℕ
  pub msg_count : ℤ
  pub aligned_count : ℤ
  pub acked : Bool

abbrev pub is_source : Bytes → Bytes → DomainSource → Bool
is_source domain ip row = beq row.source_domain domain && beq row.source_ip ip

-- the result of an upsert: `isNew` and `firstSeen`
abbrev pub Upserted : Type 0
Upserted = (Bool × ℕ) × List DomainSource

abbrev pub keep_row : DomainSource → Option Upserted → Option Upserted
keep_row row none = none
keep_row row (some (r, rows)) = some (r, row ∷ rows)

-- a row that is there: both sums have to fit
abbrev pub bumped : ℕ → DomainSource → List DomainSource → Option ℤ → Option ℤ → Option Upserted
bumped now row rows (some msgs) (some aligned) = some (
  (false, row.first_seen),
  record row { last_seen = now; msg_count = msgs; aligned_count = aligned } ∷ rows,
)
bumped now row rows none aligned = none
bumped now row rows (some msgs) none = none

-- `UpsertDomainSource`; `none` where a sum is out of range
unfoldable pub upsert_domain_source :
    ℕ → Bytes → Bytes → ℤ → ℤ → ℕ → List DomainSource → Option Upserted
unfolding add_bigint
upsert_domain_source now domain ip msgs aligned serial [] = some (
  (true, now),
  record {
    source_domain = domain;
    source_ip = ip;
    first_seen = now;
    last_seen = now;
    first_serial = serial;
    msg_count = msgs;
    aligned_count = aligned;
    acked = false;
  }
      ∷ [],
)
upsert_domain_source now domain ip msgs aligned serial (row ∷ rows) =
    let rest = upsert_domain_source now domain ip msgs aligned serial rows in
    if is_source domain ip row
    then bumped now row rows (add_bigint row.msg_count msgs) (add_bigint row.aligned_count aligned)
    else keep_row row rest

-- `AckSource`: was there such a row, and the table
unfoldable pub ack_source : Bytes → Bytes → List DomainSource → Bool × List DomainSource
ack_source domain ip [] = (false, [])
ack_source domain ip (row ∷ rows) =
    let rest = ack_source domain ip rows in
    if is_source domain ip row
    then (true, record row { acked = true } ∷ rest.1)
    else (rest.0, row ∷ rest.1)

pub record IpMeta : Type 0 where
  pub meta_ip : Bytes
  pub ptr : Option Bytes
  pub asn : Option ℤ
  pub as_org : Option Bytes
  pub country : Option Bytes
  pub sender_class : Option Bytes
  pub meta_first_seen : ℕ
  pub refreshed_at : Option ℕ

unfoldable pub find_meta : Bytes → List IpMeta → Option IpMeta
find_meta ip [] = none
find_meta ip (m ∷ ms) = if beq m.meta_ip ip then some m else find_meta ip ms

abbrev pub ptr_of : Option IpMeta → Option Bytes
ptr_of none = none
ptr_of (some m) = m.ptr

-- `IPMetaPTR`
unfoldable pub ip_meta_ptr : Bytes → List IpMeta → Option Bytes
unfolding find_meta
ip_meta_ptr ip ms = ptr_of (find_meta ip ms)

abbrev pub is_stale : ℕ → ℕ → Option ℕ → Bool
is_stale clock max_age none = true
is_stale clock max_age (some t) = ltb (t + max_age) clock

abbrev pub stale_meta : ℕ → ℕ → Option IpMeta → Bool
stale_meta clock max_age none = true
stale_meta clock max_age (some m) = is_stale clock max_age m.refreshed_at

-- `IPMetaNeedsRefresh`
unfoldable pub needs_refresh : ℕ → Bytes → ℕ → List IpMeta → Bool
unfolding find_meta
needs_refresh clock ip max_age ms = stale_meta clock max_age (find_meta ip ms)

-- What a lookup found.
pub record Found : Type 0 where
  pub found_ptr : Option Bytes
  pub found_asn : Option ℤ
  pub found_org : Option Bytes
  pub found_country : Option Bytes
  pub found_class : Option Bytes

abbrev pub coalesce {ℓ} : {A : Type ℓ} → Option A → Option A → Option A
coalesce none b = b
coalesce (some a) b = some a

abbrev pub refresh : ℕ → Found → IpMeta → IpMeta
refresh now f m = record m {
  ptr = f.found_ptr;
  asn = coalesce f.found_asn m.asn;
  as_org = coalesce f.found_org m.as_org;
  country = coalesce f.found_country m.country;
  sender_class = coalesce f.found_class m.sender_class;
  refreshed_at = some now;
}

abbrev pub new_meta : ℕ → Bytes → Found → IpMeta
new_meta now ip f = record {
  meta_ip = ip;
  ptr = f.found_ptr;
  asn = f.found_asn;
  as_org = f.found_org;
  country = f.found_country;
  sender_class = f.found_class;
  meta_first_seen = now;
  refreshed_at = some now;
}

-- `UpsertIPMeta`, keep_row `validUTF8`
unfoldable pub upsert_meta : ℕ → Bytes → Found → List IpMeta → List IpMeta
upsert_meta now ip f [] = new_meta now ip f ∷ []
upsert_meta now ip f (m ∷ ms) =
    let rest = upsert_meta now ip f ms in
    if beq m.meta_ip ip then refresh now f m ∷ ms else m ∷ rest

-- `validUTF8`; `strings.ToValidUTF8` is a parameter
abbrev pub valid_utf8 : (Bytes → Bytes) → Option Bytes → Option Bytes
valid_utf8 to_valid = Option.map to_valid

abbrev pub sanitized : (Bytes → Bytes) → Found → Found
sanitized to_valid f = record f {
  found_ptr = valid_utf8 to_valid f.found_ptr;
  found_org = valid_utf8 to_valid f.found_org;
  found_country = valid_utf8 to_valid f.found_country;
  found_class = valid_utf8 to_valid f.found_class;
}
