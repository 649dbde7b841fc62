-- ===== src/Config/Usable.antt =====
-- What `parseAPIKeys` accepts.
use dmarcparser.Base.{
  Bool-cases, is_empty, All, ok, >>=-eq_ok, ◌≡◌, inl, inr, false, ◌||◌, List, [], ◌∷◌, arith,
}
use dmarcparser.Config.{
  ApiKey, has_no_scope, check_key, parse_parts, parse_entry, parse_entries, split_non_empty,
  parse_api_keys,
}
use dmarcparser.Text.{Bytes, split}
use mathlib.Core.Path.{subst}

-- A key that a request can present and that opens something.
pub record IsUsable (k : ApiKey) : Type 0 where
  pub key_set : is_empty k.key ≡ false
  pub scope_set : has_no_scope k.scopes ≡ false

check_key-IsUsable : (k : ApiKey) {k' : ApiKey} → check_key k ≡ ok k' → IsUsable k'
unfolding check_key
check_key-IsUsable k {k'} e = elim (Bool-cases (is_empty k.key || has_no_scope k.scopes)) [
  | inl bad ↦ absurd (cc (rw bad at e))
  | inr good ↦
      let same : k ≡ k' = cc (rw good at e) in
      subst IsUsable same (record { key_set = ground arith; scope_set = ground arith })
]

parse_entry-IsUsable : (e : Bytes) {k : ApiKey} → parse_entry e ≡ ok k → IsUsable k
unfolding parse_entry
parse_entry-IsUsable e h =
    let (k, read, checked) = >>=-eq_ok (parse_parts (split b'=' e)) _ h in
    check_key-IsUsable k checked

parse_entries-IsUsable :
    (es : List Bytes) {ks : List ApiKey} → parse_entries es ≡ ok ks → All IsUsable ks
unfolding parse_entries
parse_entries-IsUsable [] {ks} h = let none_left : [] ≡ ks = cc in subst (All IsUsable) none_left tt
parse_entries-IsUsable (e ∷ es) {ks} h =
    let (k, one, rest) = >>=-eq_ok (parse_entry e) _ h in
    let (ks', more, last) = >>=-eq_ok (parse_entries es) _ rest in
    let same : k ∷ ks' ≡ ks = cc in
    subst (All IsUsable) same (parse_entry-IsUsable e one, parse_entries-IsUsable es more)

-- Every key that `parseAPIKeys` returns is usable: it is not empty and it has at least one scope.
pub parse_api_keys-IsUsable :
    (raw : Bytes) {ks : List ApiKey} → parse_api_keys raw ≡ ok ks → All IsUsable ks
unfolding parse_api_keys
parse_api_keys-IsUsable raw h = parse_entries-IsUsable (split_non_empty raw) h
