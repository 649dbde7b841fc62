-- ===== src/Config.antt =====
-- parser/internal/config/config.go: the parsers of `PARSER_API_KEYS`, of the lists of URLs and of the
-- weekday.
pub mod Usable
pub mod Load
pub mod Granted
use dmarcparser.Base.{
  if◌then◌else◌, is_empty, Result, ok, err, ◌>>=◌, ℕ, ◌+◌, Bool, true, false, not, ◌&&◌, ◌||◌,
  Option, none, some, List, [], ◌∷◌,
}
use dmarcparser.Text.{Bytes, codes, beq, trim_space, split, join}
use dmarcparser.Unicode.{Casing}

-- the set of scopes of a key
pub record Scopes : Type 0 where
  pub read : Bool
  pub ingest : Bool
  pub admin : Bool

pub record ApiKey : Type 0 where
  pub name : Bytes
  pub key : Bytes
  pub scopes : Scopes

pub data KeysError : Type 0 where
  unknown_scope : Bytes → Bytes → KeysError
  malformed_entry unusable_key : KeysError

abbrev pub no_scopes : Scopes
no_scopes = record { read = false; ingest = false; admin = false }

abbrev pub all_scopes : Scopes
all_scopes = record { read = true; ingest = true; admin = true }

-- the `switch` on one trimmed scope; `none` for an unknown one
unfoldable pub add_scope : Bytes → Scopes → Option Scopes
add_scope sc s =
    if beq sc (codes "*")
    then some all_scopes
    else if beq sc (codes "read")
    then some (record s { read = true })
    else if beq sc (codes "ingest")
    then some (record s { ingest = true })
    else if beq sc (codes "admin")
    then some (record s { admin = true })
    else if is_empty sc
    then some s
    else none

-- the `default` branch of the switch
unfoldable pub known_scope : Bytes → Bytes → Option Scopes → Result KeysError Scopes
known_scope name sc none = err (unknown_scope sc name)
known_scope name sc (some s) = ok s

-- the loop over the scopes of one entry
unfoldable pub parse_scopes : Bytes → List Bytes → Scopes → Result KeysError Scopes
unfolding add_scope known_scope
parse_scopes name [] s = ok s
parse_scopes name (sc ∷ scs) s = do
  s' ← known_scope name (trim_space sc) (add_scope (trim_space sc) s)
  parse_scopes name scs s'

-- `len(k.Scopes) == 0`
unfoldable pub has_no_scope : Scopes → Bool
has_no_scope s = not s.read && (not s.ingest && not s.admin)

-- the check at the end of a round
unfoldable pub check_key : ApiKey → Result KeysError ApiKey
unfolding has_no_scope
check_key k = if is_empty k.key || has_no_scope k.scopes then err unusable_key else ok k

-- the `switch` on the parts of an entry: `SplitN` by `=` leaves the third part whole
unfoldable pub parse_parts : List Bytes → Result KeysError ApiKey
unfolding parse_scopes
parse_parts [] = err malformed_entry
parse_parts (k ∷ []) = ok (record { name = codes "default"; key = k; scopes = all_scopes })
parse_parts (n ∷ k ∷ []) = err malformed_entry
parse_parts (n ∷ k ∷ s ∷ more) = do
  sc ← parse_scopes n (split b'|' (join (codes "=") (s ∷ more))) no_scopes
  ok (record { name = n; key = k; scopes = sc })

unfoldable pub parse_entry : Bytes → Result KeysError ApiKey
unfolding parse_parts check_key
parse_entry entry = do k ← parse_parts (split b'=' entry); check_key k

-- `splitNonEmpty`, behind the split; the loop of `parseAPIKeys` skips blank entries alike
unfoldable pub non_blank : List Bytes → List Bytes
non_blank [] = []
non_blank (v ∷ vs) =
    let rest = non_blank vs in if is_empty (trim_space v) then rest else trim_space v ∷ rest

unfoldable pub parse_entries : List Bytes → Result KeysError (List ApiKey)
unfolding parse_entry
parse_entries [] = ok []
parse_entries (e ∷ es) = do k ← parse_entry e; ks ← parse_entries es; ok (k ∷ ks)

unfoldable pub split_non_empty : Bytes → List Bytes
unfolding non_blank
split_non_empty s = non_blank (split b',' s)

-- `parseAPIKeys`
unfoldable pub parse_api_keys : Bytes → Result KeysError (List ApiKey)
unfolding parse_entries split_non_empty
parse_api_keys raw = parse_entries (split_non_empty raw)

abbrev pub weekdays : List Bytes
weekdays =
    codes "Sunday"
    ∷ codes "Monday"
    ∷ codes "Tuesday"
    ∷ codes "Wednesday"
    ∷ codes "Thursday"
    ∷ codes "Friday"
    ∷ codes "Saturday"
    ∷ []

-- the position of the first name that agrees, without regard to case
unfoldable pub find_day : Casing → ℕ → List Bytes → Bytes → Option ℕ
find_day cs n [] s = none
find_day cs n (d ∷ ds) s =
    let rest = find_day cs (n + 1) ds s in if cs.equal_fold d s then some n else rest

-- `parseWeekday`: Sunday is 0
unfoldable pub parse_weekday : Casing → Bytes → Option ℕ
unfolding find_day
parse_weekday cs s = find_day cs 0 weekdays s
