-- ===== src/Config/Granted.antt =====
-- Which scopes a key gets.
use dmarcparser.Base.{
  any, ok, ◌≡◌, refl, sym, inl, inr, Bool, true, false, ◌||◌, some, List, [], ◌∷◌, Bool-cases,
  is_empty, arith, >>=-eq_ok, Option, none,
}
use dmarcparser.Config.{
  Scopes, add_scope, parse_scopes, no_scopes, all_scopes, known_scope, ApiKey, has_no_scope,
  check_key, parse_parts, parse_entry,
}
use dmarcparser.Text.{Bytes, codes, beq, trim_space, beq_iff, split, join}
use mathlib.Core.Path.{subst}

-- A scope in the list that grants the given one: its name, or `*`.
abbrev pub grants : Bytes → List Bytes → Bool
grants scope = any (λ sc. beq (trim_space sc) (codes "*") || beq (trim_space sc) scope)

abbrev pub Granted : List Bytes → Scopes → Scopes → Type 0
Granted scs s s' =
    (s'.read ≡ (s.read || grants (codes "read") scs))
    × (s'.ingest ≡ (s.ingest || grants (codes "ingest") scs))
    × (s'.admin ≡ (s.admin || grants (codes "admin") scs))

or_false : (b : Bool) → (b || false) ≡ b
or_false true = refl
or_false false = refl

Granted-nil : (s : Scopes) → Granted [] s s
Granted-nil s = (sym (or_false s.read), sym (or_false s.ingest), sym (or_false s.admin))

other_name : (s a b : Bytes) → beq s a ≡ true → beq a b ≡ false → beq s b ≡ false
other_name s a b h k = rw ((beq_iff s a).0 h) k

-- what one scope adds
abbrev Adds : Bytes → Scopes → Scopes → Type 0
Adds sc s t =
    (t.read ≡ (s.read || (beq sc (codes "*") || beq sc (codes "read"))))
    × (t.ingest ≡ (s.ingest || (beq sc (codes "*") || beq sc (codes "ingest"))))
    × (t.admin ≡ (s.admin || (beq sc (codes "*") || beq sc (codes "admin"))))

add_scope-Adds : (sc : Bytes) (s : Scopes) {t : Scopes} → add_scope sc s ≡ some t → Adds sc s t
unfolding add_scope beq
add_scope-Adds sc s {t} e = elim (Bool-cases (beq sc (codes "*"))) [
  | inl a ↦
      let same : all_scopes ≡ t = cc (rw a at e) in
      subst (Adds sc s) same (ground arith, ground arith, ground arith)
  | inr a ↦ elim (Bool-cases (beq sc (codes "read"))) [
    | inl b ↦
        let same : record s { read = true } ≡ t = cc (rw (a, b) at e) in
        let i = other_name sc _ (codes "ingest") b refl in
        let d = other_name sc _ (codes "admin") b refl in
        subst (Adds sc s) same (ground arith, ground arith, ground arith)
    | inr b ↦ elim (Bool-cases (beq sc (codes "ingest"))) [
      | inl c ↦
          let same : record s { ingest = true } ≡ t = cc (rw (a, b, c) at e) in
          let d = other_name sc _ (codes "admin") c refl in
          subst (Adds sc s) same (ground arith, ground arith, ground arith)
      | inr c ↦ elim (Bool-cases (beq sc (codes "admin"))) [
        | inl d ↦
            let same : record s { admin = true } ≡ t = cc (rw (a, b, c, d) at e) in
            subst (Adds sc s) same (ground arith, ground arith, ground arith)
        | inr d ↦ elim (Bool-cases (is_empty sc)) [
          | inl n ↦
              let same : s ≡ t = cc (rw (a, b, c, d, n) at e) in
              subst (Adds sc s) same (ground arith, ground arith, ground arith)
          | inr n ↦ absurd (cc (rw (a, b, c, d, n) at e))
        ]
      ]
    ]
  ]
]

Granted-cons :
    (sc : Bytes) (scs : List Bytes) (s t s' : Scopes)
    → Adds (trim_space sc) s t
    → Granted scs t s'
    → Granted (sc ∷ scs) s s'
Granted-cons sc scs s t s' (a, b, c) (r, i, d) = (ground arith, ground arith, ground arith)

known_scope-eq_ok :
    (name sc : Bytes) (o : Option Scopes) {t : Scopes} → known_scope name sc o ≡ ok t → o ≡ some t
unfolding known_scope
known_scope-eq_ok name sc none e = absurd (cc)
known_scope-eq_ok name sc (some s) e = cc

parse_scopes-Granted_from :
    (name : Bytes) (scs : List Bytes) (s : Scopes) {s' : Scopes}
    → parse_scopes name scs s ≡ ok s'
    → Granted scs s s'
unfolding parse_scopes
parse_scopes-Granted_from name [] s {s'} e =
    let same : s ≡ s' = cc in subst (Granted [] s) same (Granted-nil s)
parse_scopes-Granted_from name (sc ∷ scs) s {s'} e =
    let (t, one, rest) =
      >>=-eq_ok (known_scope name (trim_space sc) (add_scope (trim_space sc) s)) _ e in
    Granted-cons sc scs s t s' (add_scope-Adds (trim_space sc) s (known_scope-eq_ok name _ _ one))
      (parse_scopes-Granted_from name scs t rest)

-- what the parts of an entry say: the name, the key, and whether it lists the scope
abbrev pub entry_name : List Bytes → Bytes
entry_name [] = []
entry_name (k ∷ []) = codes "default"
entry_name (n ∷ k ∷ more) = n

abbrev pub entry_key : List Bytes → Bytes
entry_key [] = []
entry_key (k ∷ []) = k
entry_key (n ∷ k ∷ more) = k

abbrev pub entry_grants : Bytes → List Bytes → Bool
entry_grants scope [] = false
entry_grants scope (k ∷ []) = true
entry_grants scope (n ∷ k ∷ []) = false
entry_grants scope (n ∷ k ∷ s ∷ more) = grants scope (split b'|' (join (codes "=") (s ∷ more)))

pub record IsGranted (parts : List Bytes) (k : ApiKey) : Type 0 where
  pub named : k.name ≡ entry_name parts
  pub keyed : k.key ≡ entry_key parts
  pub read_granted : k.scopes.read ≡ entry_grants (codes "read") parts
  pub ingest_granted : k.scopes.ingest ≡ entry_grants (codes "ingest") parts
  pub admin_granted : k.scopes.admin ≡ entry_grants (codes "admin") parts

parse_parts-IsGranted :
    (parts : List Bytes) {k : ApiKey} → parse_parts parts ≡ ok k → IsGranted parts k
unfolding parse_parts
parse_parts-IsGranted [] e = absurd (cc)
parse_parts-IsGranted (x ∷ []) {k} e =
    let same : record { name = codes "default"; key = x; scopes = all_scopes } ≡ k = cc in
    subst (IsGranted (x ∷ [])) same (record {
      named = refl;
      keyed = refl;
      read_granted = refl;
      ingest_granted = refl;
      admin_granted = refl;
    })
parse_parts-IsGranted (n ∷ x ∷ []) e = absurd (cc)
parse_parts-IsGranted (n ∷ x ∷ s ∷ more) {k} e =
    let (sc, scoped, rest) =
      >>=-eq_ok (parse_scopes n (split b'|' (join (codes "=") (s ∷ more))) no_scopes) _ e in
    let (r, i, a) = parse_scopes-Granted_from n _ no_scopes scoped in
    let same : record { name = n; key = x; scopes = sc } ≡ k = cc in
    subst (IsGranted (n ∷ x ∷ s ∷ more)) same (record {
      named = refl;
      keyed = refl;
      read_granted = r;
      ingest_granted = i;
      admin_granted = a;
    })

check_key-eq_ok : (x : ApiKey) {k : ApiKey} → check_key x ≡ ok k → x ≡ k
unfolding check_key
check_key-eq_ok x e = elim (Bool-cases (is_empty x.key || has_no_scope x.scopes)) [
  | inl h ↦ absurd (cc (rw h at e))
  | inr h ↦ cc (rw h at e)
]

-- The key that an entry is parsed to has exactly what its parts say: a bare key gets the name
-- `default` and all three scopes; an entry of three parts gets its name and exactly the scopes that
-- the third part lists, a `*` standing for all three.
pub parse_entry-IsGranted :
    (entry : Bytes) {k : ApiKey} → parse_entry entry ≡ ok k → IsGranted (split b'=' entry) k
unfolding parse_entry
parse_entry-IsGranted entry {k} e =
    let (x, parsed, checked) = >>=-eq_ok (parse_parts (split b'=' entry)) _ e in
    subst (IsGranted (split b'=' entry)) (check_key-eq_ok x checked)
      (parse_parts-IsGranted (split b'=' entry) parsed)
