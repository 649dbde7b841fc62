-- ===== src/Report/Chosen.antt =====
-- Which `auth_results` entry `pickAuth` takes, and that `normalize` settles at once.
use dmarcparser.Base.{
  Bool-cases, All, ◌≡◌, refl, sym, ap, ◌∙◌, ◌⊎◌, inl, inr, true, false, some, List, [], ◌∷◌, ◌++◌,
  map,
}
use dmarcparser.Report.{AuthResult}
use dmarcparser.Report.Allowed.{member-normalize}
use dmarcparser.Report.Fields.{unknown, member, normalize, passed, pick_loop, pick_auth}
use dmarcparser.Text.{Bytes, beq, beq_iff, trim_space}
use dmarcparser.Unicode.{ascii_lower, IsAscii, Casing}
use mathlib.Core.Path.{subst}

module _ (cs : Casing) where
  -- `a` is the first entry of the list that passed.
  pub record IsFirstPass (a : AuthResult) (xs : List AuthResult) : Type 0 where
    pub before : List AuthResult
    pub after : List AuthResult
    pub splits : xs ≡ before ++ a ∷ after
    pub none_before : All (λ b. passed cs b ≡ false) before
    pub passes : passed cs a ≡ true

  abbrev pub NonePassed : List AuthResult → Type 0
  NonePassed = All (λ b. passed cs b ≡ false)

  IsFirstPass-cons :
      (x a : AuthResult) (xs : List AuthResult)
      → passed cs x ≡ false
      → IsFirstPass a xs
      → IsFirstPass a (x ∷ xs)
  IsFirstPass-cons x a xs h f = record {
    before = x ∷ f.before;
    after = f.after;
    splits = ap (◌∷◌ x) f.splits;
    none_before = (h, f.none_before);
    passes = f.passes;
  }

  pick_loop-hit :
      (d x : AuthResult) (xs : List AuthResult) → passed cs x ≡ true → pick_loop cs d (x ∷ xs) ≡ x
  unfolding pick_loop
  pick_loop-hit d x xs h = rw h

  pick_loop-miss :
      (d x : AuthResult) (xs : List AuthResult)
      → passed cs x ≡ false
      → pick_loop cs d (x ∷ xs) ≡ pick_loop cs d xs
  unfolding pick_loop
  pick_loop-miss d x xs h = rw h

  pick_loop-cases :
      (d : AuthResult) (xs : List AuthResult)
      → IsFirstPass (pick_loop cs d xs) xs ⊎ (NonePassed xs × (pick_loop cs d xs ≡ d))
  pick_loop-cases d [] = inr (tt, unfold pick_loop in refl)
  pick_loop-cases d (x ∷ xs) = elim (Bool-cases (passed cs x)) [
    | inl hit ↦ inl (
        rw (pick_loop-hit d x xs hit)
          (record { before = []; after = xs; splits = refl; none_before = tt; passes = hit }))
    | inr miss ↦ elim (pick_loop-cases d xs) [
      | inl f ↦ inl (rw (pick_loop-miss d x xs miss) (IsFirstPass-cons x _ xs miss f))
      | inr (h, e) ↦ inr ((miss, h), pick_loop-miss d x xs miss ∙ e)
    ]
  ]

  -- On a list that is not empty `pickAuth` returns the first entry that passed, or, where none
  -- passed, the first entry.
  pick_auth-first :
      (x : AuthResult) (xs : List AuthResult)
      → (a : AuthResult) × (pick_auth cs (x ∷ xs) ≡ some a)
        × (IsFirstPass a (x ∷ xs) ⊎ (NonePassed (x ∷ xs) × (a ≡ x)))
  unfolding pick_auth
  pick_auth-first x xs = (pick_loop cs x (x ∷ xs), refl, pick_loop-cases x (x ∷ xs))

-- A value that neither trimming nor lowering changes.
pub record IsCanonical (w : Bytes) : Type 0 where
  pub trimmed : trim_space w ≡ w
  pub ascii : IsAscii w
  pub lowered : map ascii_lower w ≡ w

member-All :
    (P : Bytes → Type 0) (v : Bytes) (ws : List Bytes) → member v ws ≡ true → All P ws → P v
unfolding member
member-All P v [] h all = absurd (cc)
member-All P v (w ∷ ws) h all = elim (Bool-cases (beq v w)) [
  | inl same ↦ subst P (sym ((beq_iff v w).0 same)) all.0
  | inr other ↦ member-All P v ws (rw other at h) all.1
]

normalize-member :
    (cs : Casing) (v : Bytes) (allowed : List Bytes)
    → member v allowed ≡ true
    → IsCanonical v
    → normalize cs v allowed ≡ v
unfolding normalize
normalize-member cs v allowed h c =
    let low : cs.to_lower (trim_space v) ≡ v =
      ap cs.to_lower c.trimmed ∙ cs.to_lower_ascii v c.ascii ∙ c.lowered in
    rw (low, h)

-- Where the allowed values are lower-case ASCII words without surrounding space and `unknown` is
-- one of them, normalising twice is normalising once.
normalize_idem :
    (cs : Casing) (v : Bytes) (allowed : List Bytes)
    → member unknown allowed ≡ true
    → All IsCanonical allowed
    → normalize cs (normalize cs v allowed) allowed ≡ normalize cs v allowed
normalize_idem cs v allowed h all =
    let known = member-normalize cs v allowed h in
    normalize-member cs (normalize cs v allowed) allowed known
      (member-All IsCanonical _ allowed known all)
