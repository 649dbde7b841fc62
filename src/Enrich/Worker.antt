-- ===== src/Enrich/Worker.antt =====
-- parser/internal/enrich/enrich.go (`process`, `worker`), classify.go and cymru.go. The resolver and
-- the packages `netip`, `strconv` and `fmt` are parameters.
pub mod Fresh
use dmarcparser.Base.Int.{ℤ}
use dmarcparser.Report.Address.{is_quad, dotted}
use dmarcparser.Base.{
  ◌==◌, if◌then◌else◌, is_empty, Bool, ◌||◌, Option, none, some, List, [], ◌∷◌, ◌++◌, ltb, length,
  ℕ, ◌+◌, ◌-◌, ◌*◌, ◌/◌, ◌%◌, not, map, reverse,
}
use dmarcparser.Unicode.{Casing}
use dmarcparser.Text.{cut, Bytes, codes, beq, has_suffix, contains, trim_space, split}
use dmarcparser.Store.Sources.{Found, IpMeta, needs_refresh, upsert_meta, sanitized}
use dmarcparser.Enrich.{Task, Intel}

pub record Rule : Type 0 where
  pub pattern : Bytes
  pub class : Bytes

abbrev rule : Bytes → Bytes → Rule
rule p c = record { pattern = p; class = c }

abbrev pub class_rules : List Rule
class_rules =
    rule (codes "google.com") (codes "google")
    ∷ rule (codes "googlemail.com") (codes "google")
    ∷ rule (codes "protection.outlook.com") (codes "microsoft365")
    ∷ rule (codes "amazonses.com") (codes "amazon-ses")
    ∷ rule (codes "sendgrid.net") (codes "sendgrid")
    ∷ rule (codes "mailgun") (codes "mailgun")
    ∷ rule (codes "mcsv.net") (codes "mailchimp")
    ∷ rule (codes "mailchimp") (codes "mailchimp")
    ∷ rule (codes "pphosted.com") (codes "proofpoint")
    ∷ rule (codes "mimecast") (codes "mimecast")
    ∷ rule (codes "zoho") (codes "zoho")
    ∷ rule (codes "ovh") (codes "ovh")
    ∷ rule (codes "hetzner") (codes "hetzner")
    ∷ []

-- does a rule match a name?
unfoldable pub applies : Rule → Bytes → Bool
unfolding contains has_suffix
applies r n =
    if contains r.pattern (codes ".")
    then beq n r.pattern || has_suffix n (codes "." ++ r.pattern)
    else contains n r.pattern

-- `strings.TrimSuffix(s, ".")`
unfoldable pub trim_dot : Bytes → Bytes
trim_dot [] = []
trim_dot (c ∷ []) = if c == b'.' then [] else c ∷ []
trim_dot (c ∷ d ∷ s) = c ∷ trim_dot (d ∷ s)

unfoldable pub first_class : List Rule → Bytes → Option Bytes
unfolding applies
first_class [] n = none
first_class (r ∷ rs) n = let rest = first_class rs n in if applies r n then some r.class else rest

abbrev pub class_or {ℓ} : {A : Type ℓ} → Option A → A → A
class_or none b = b
class_or (some a) b = a

abbrev pub some_text : Bytes → Option Bytes
some_text [] = none
some_text (c ∷ s) = some (c ∷ s)

module _ (cs : Casing) where
  unfoldable pub clean_name : Bytes → Bytes
  unfolding trim_dot trim_space
  clean_name n = cs.to_lower (trim_dot (trim_space n))

  -- `Classify`
  unfoldable pub classify_sender : List Bytes → Bytes
  unfolding clean_name first_class
  classify_sender [] = []
  classify_sender (n ∷ ns) =
      let rest = classify_sender ns in
      if is_empty (clean_name n)
      then rest
      else class_or (first_class class_rules (clean_name n)) rest

-- `strings.Cut(s, " ")`: what stands before the first space
abbrev pub before_space : Bytes → Option (Bytes × Bytes) → Bytes
before_space s none = s
before_space s (some (a, b)) = a

unfoldable pub first_word : Bytes → Bytes
unfolding cut
first_word s = before_space s (cut b' ' s)

-- The packages that `process` calls. An address is its 4 or 16 bytes.
pub record Dns : Type 0 where
  -- `netip.ParseAddr` with `Unmap`, and `String`
  pub parse_addr : Bytes → Option Bytes
  pub print_addr : Bytes → Bytes
  -- the resolver, `none` for an error
  pub lookup_addr : Bytes → Option (List Bytes)
  pub lookup_txt : Bytes → Option (List Bytes)
  -- `strconv.ParseInt`, `%d` of an int64, `strings.ToValidUTF8`
  pub parse_int64 : Bytes → Option ℤ
  pub print_int : ℤ → Bytes
  pub to_valid : Bytes → Bytes

-- What one call of `process` meets.
pub record Visit : Type 0 where
  pub local_clock : ℕ
  pub db_clock : ℕ
  pub check_fails : Bool
  pub upsert_fails : Bool

abbrev pub refresh_after : ℕ
refresh_after = 30 * 24 * 3600

abbrev hex : ℕ → ℕ
hex n = if ltb n 10 then b'0' + n else b'a' + (n - 10)

-- the two nibbles of each byte, the last byte first
unfoldable pub nibbles : Bytes → Bytes
nibbles [] = []
nibbles (b ∷ bs) = nibbles bs ++ hex (b % 16) ∷ b'.' ∷ hex (b / 16) ∷ b'.' ∷ []

unfoldable pub cymru_origin_name : Bytes → Bytes
unfolding dotted nibbles
cymru_origin_name addr =
    if is_quad addr
    then dotted (reverse addr) ++ codes ".origin.asn.cymru.com"
    else nibbles addr ++ codes "origin6.asn.cymru.com"

abbrev pub org_field : List Bytes → Option Bytes
org_field (a ∷ b ∷ c ∷ d ∷ e ∷ rest) = some_text e
org_field _ = none

abbrev pub first_of : Option (List Bytes) → Bytes
first_of (some (n ∷ ns)) = n
first_of _ = []

abbrev pub country_of : Bytes → Option Bytes
country_of cc = if length cc == 2 then some cc else none

module _ (dns : Dns) where
  unfoldable pub lookup_ptr : Bytes → Bytes
  unfolding trim_dot
  lookup_ptr ip = trim_dot (first_of (dns.lookup_addr ip))

  abbrev pub fields_of : Option (List Bytes) → List Bytes
  fields_of (some (t ∷ ts)) = map trim_space (split b'|' t)
  fields_of _ = []

  unfoldable pub cymru_txt : Bytes → List Bytes
  unfolding split trim_space
  cymru_txt name = fields_of (dns.lookup_txt name)

  unfoldable pub parse_asn : Bytes → Option ℤ
  parse_asn s = if is_empty s then none else dns.parse_int64 s

  abbrev pub org_of : Option ℤ → Option Bytes
  org_of none = none
  org_of (some asn) =
      org_field (cymru_txt (codes "AS" ++ dns.print_int asn ++ codes ".asn.cymru.com"))

  abbrev pub origin_fields : List Bytes → Option ℤ × (Option Bytes × Option Bytes)
  origin_fields (a ∷ b ∷ c ∷ rest) =
      let asn = parse_asn (first_word a) in (asn, (country_of c, org_of asn))
  origin_fields _ = (none, (none, none))

  -- `lookupCymru`: the number, the country and the organisation
  unfoldable pub lookup_cymru : Bytes → Option ℤ × (Option Bytes × Option Bytes)
  unfolding cymru_txt cymru_origin_name parse_asn first_word
  lookup_cymru addr = origin_fields (cymru_txt (cymru_origin_name addr))

  unfoldable pub found_for : Casing → Bytes → Bytes → Found
  unfolding lookup_ptr lookup_cymru classify_sender
  found_for cs hint addr =
      let name = lookup_ptr (dns.print_addr addr) in
      let origin = lookup_cymru addr in
      record {
        found_ptr = some_text name;
        found_asn = origin.0;
        found_org = origin.1.1;
        found_country = origin.1.0;
        found_class = some_text (classify_sender cs (name ∷ hint ∷ []));
      }

  unfoldable pub process_addr : Casing → Visit → Bytes → Option Bytes → List IpMeta → List IpMeta
  unfolding found_for needs_refresh upsert_meta
  process_addr cs x hint none ms = ms
  process_addr cs x hint (some addr) ms =
      let ip = dns.print_addr addr in
      if x.check_fails
      then ms
      else if not (needs_refresh x.local_clock ip refresh_after ms)
      then ms
      else if x.upsert_fails
      then ms
      else upsert_meta x.db_clock ip (sanitized dns.to_valid (found_for cs hint addr)) ms

  -- `process`
  unfoldable pub process : Casing → Visit → Task → List IpMeta → List IpMeta
  unfolding process_addr
  process cs x t ms = process_addr cs x t.hint (dns.parse_addr t.task_ip) ms

  -- one round of `worker`
  unfoldable pub work : {Float : Type 0} → Casing → Visit → Intel Float → Intel Float
  unfolding process
  work cs x st = elim st.queue [
    | [] ↦ st
    | t ∷ ts ↦ record st { queue = ts; ip_meta = process cs x t st.ip_meta }
  ]
