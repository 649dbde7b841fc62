-- ===== src/Api/Guarded.antt =====
-- Who gets to a handler.
use dmarcparser.Enrich.Announced.{known}
use mathlib.Core.Path.{subst}
use dmarcparser.Api.{
  match_loop, match_key, limit_rate, auth, Scope, has_scope, require_scope, guarded,
}
use dmarcparser.Base.{
  ◌≡◌, inl, Option, none, some, List, [], ◌∷◌, ◌++◌, Bool-cases, is_empty, ok, >>=-eq_ok, refl, ap,
  inr, Bool, true,
}
use dmarcparser.Config.{ApiKey}
use dmarcparser.Text.{Bytes, beq, beq_iff}

-- one of the configured keys
abbrev pub IsConfigured : ApiKey → List ApiKey → Type 0
IsConfigured k keys = (before after : List ApiKey) × (keys ≡ before ++ k ∷ after)

module _ (digest : Bytes → Bytes) where
  -- what the loop has found it keeps
  match_loop-some :
      (c : Bytes) (ks : List ApiKey) (f : ApiKey) → match_loop digest c ks (some f) ≡ some f
  unfolding match_loop
  match_loop-some c [] f = refl
  match_loop-some c (x ∷ xs) f = elim (Bool-cases (beq (digest c) (digest x.key))) [
    | inl h ↦ rw h (match_loop-some c xs f)
    | inr h ↦ rw h (match_loop-some c xs f)
  ]

  IsConfigured-cons :
      (x : ApiKey) {k : ApiKey} (xs : List ApiKey) → IsConfigured k xs → IsConfigured k (x ∷ xs)
  IsConfigured-cons x xs (before, after, e) = (x ∷ before, after, ap (◌∷◌ x) e)

  match_loop-IsConfigured :
      (c : Bytes) (ks : List ApiKey) {k : ApiKey}
      → match_loop digest c ks none ≡ some k
      → IsConfigured k ks × (digest c ≡ digest k.key)
  unfolding match_loop
  match_loop-IsConfigured c [] e = absurd (cc)
  match_loop-IsConfigured c (x ∷ xs) {k} e = elim (Bool-cases (beq (digest c) (digest x.key))) [
    | inl h ↦
        let same : x ≡ k = cc (rw (h, match_loop-some c xs x) at e) in
        subst (λ z. IsConfigured z (x ∷ xs) × (digest c ≡ digest z.key)) same
          (([], xs, refl), (beq_iff _ _).0 h)
    | inr h ↦
        let (known, d) = match_loop-IsConfigured c xs (rw h at e) in
        (IsConfigured-cons x xs known, d)
  ]

  -- what the first guard lets pass
  limit_rate-eq_ok :
      (allows : Bytes → Bool) (o : Option ApiKey) {k : ApiKey}
      → limit_rate digest allows o ≡ ok k
      → (o ≡ some k) × (allows k.name ≡ true)
  unfolding limit_rate
  limit_rate-eq_ok allows none e = absurd (cc)
  limit_rate-eq_ok allows (some x) {k} e = elim (Bool-cases (allows x.name)) [
    | inl h ↦
        let same : x ≡ k = cc (rw h at e) in (rw same, subst (λ z. allows z.name ≡ true) same h)
    | inr h ↦ absurd (cc (rw h at e))
  ]

  auth-eq_ok :
      (allows : Bytes → Bool) (keys : List ApiKey) (key : Bytes) {k : ApiKey}
      → auth digest allows keys key ≡ ok k
      → (match_key digest key keys ≡ some k) × (allows k.name ≡ true)
  unfolding auth
  auth-eq_ok allows keys key e = elim (Bool-cases (is_empty keys)) [
    | inl h ↦ absurd (cc (rw h at e))
    | inr h ↦ limit_rate-eq_ok allows (match_key digest key keys) (rw h at e)
  ]

  require_scope-eq_ok :
      (sc : Scope) (x : ApiKey) {k : ApiKey}
      → require_scope sc x ≡ ok k
      → (x ≡ k) × (has_scope sc x.scopes ≡ true)
  unfolding require_scope
  require_scope-eq_ok sc x e = elim (Bool-cases (has_scope sc x.scopes)) [
    | inl h ↦ (cc (rw h at e), h)
    | inr h ↦ absurd (cc (rw h at e))
  ]

  -- Where the presented key is not a digest collision with a configured key, a request gets to a
  -- handler only if it presents a configured key that has the scope of the route and is within its
  -- rate.
  pub guarded-eq_ok :
      (allows : Bytes → Bool) (keys : List ApiKey) (sc : Scope) (key : Bytes) {k : ApiKey}
      → ((x : ApiKey) → IsConfigured x keys → digest key ≡ digest x.key → key ≡ x.key)
      → guarded digest allows keys sc key ≡ ok k
      → IsConfigured k keys
        × (key ≡ k.key)
        × (has_scope sc k.scopes ≡ true)
        × (allows k.name ≡ true)
  unfolding guarded match_key
  guarded-eq_ok allows keys sc key {k} apart e =
      let (x, passed, scoped) = >>=-eq_ok (auth digest allows keys key) _ e in
      let (same, has) = require_scope-eq_ok sc x scoped in
      let (found, within) = auth-eq_ok allows keys key passed in
      let (known, d) = match_loop-IsConfigured key keys found in
      subst
        (λ z.
          IsConfigured z keys
          × (key ≡ z.key)
          × (has_scope sc z.scopes ≡ true)
          × (allows z.name ≡ true))
        same (known, apart x known d, has, within)
