-- ===== src/Stats/Domains/Rows.antt =====
-- Rows by group and rows by test: lemmas on the queries of store_stats.go.
use dmarcparser.Stats.Grouped.{find_group-group_by}
use dmarcparser.Base.{
  Bool-cases, All, ◌≡◌, refl, ap, inl, inr, Bool, true, ◌&&◌, List, [], ◌∷◌, arith, ◌∙◌, false, map,
  if◌then◌else◌, none, some,
}
use dmarcparser.Base.Int.{ℤ, pos, negsuc, lt_int, add_int, le_int}
use dmarcparser.Text.{Bytes, beq, beq_iff}
use dmarcparser.Stats.Domains.{fold_rows, days_ago}
use dmarcparser.Stats.{over_key, filtered, sort_by, insert_by, group_by, find_group}

module _ {A R : Type 0} (start : A) (key : R → Bytes) (step : R → A → A) where
  over_key-fold_rows :
      (k : Bytes) (rs : List R) (a : A)
      → over_key beq start key step k rs a ≡ fold_rows step (filtered (λ r. beq (key r) k) rs) a
  unfolding over_key fold_rows filtered
  over_key-fold_rows k [] a = refl
  over_key-fold_rows k (r ∷ rs) a = elim (Bool-cases (beq (key r) k)) [
    | inl h ↦ rw h (over_key-fold_rows k rs (step r a))
    | inr h ↦ rw h (over_key-fold_rows k rs a)
  ]

  -- a group of `GROUP BY`, and the same rows by `WHERE`
  pub find_group-fold_rows :
      (k : Bytes) (rs : List R)
      → find_group beq start k (group_by beq start key step rs [])
        ≡ fold_rows step (filtered (λ r. beq (key r) k) rs) start
  unfolding find_group
  find_group-fold_rows k rs =
      find_group-group_by beq start key step beq_iff k rs [] ∙ over_key-fold_rows k rs start

module _ {A : Type 0} where
  pub filtered-filtered :
      (p q : A → Bool) (xs : List A) → filtered p (filtered q xs) ≡ filtered (λ x. q x && p x) xs
  unfolding filtered
  filtered-filtered p q [] = refl
  filtered-filtered p q (x ∷ xs) = elim (Bool-cases (q x)) [
    | inr h ↦ rw h (filtered-filtered p q xs)
    | inl h ↦ elim (Bool-cases (p x)) [
      | inl g ↦ rw (h, filtered, g) (ap (◌∷◌ x) (filtered-filtered p q xs))
      | inr g ↦ rw (h, filtered, g) (filtered-filtered p q xs)
    ]
  ]

  All-insert_by :
      (P : A → Type 0) (ahead : A → A → Bool) (x : A) (xs : List A)
      → P x
      → All P xs
      → All P (insert_by ahead x xs)
  unfolding insert_by
  All-insert_by P ahead x [] p ps = (p, tt)
  All-insert_by P ahead x (y ∷ ys) p (q, ps) = elim (Bool-cases (ahead x y)) [
    | inl h ↦ rw h (p, (q, ps))
    | inr h ↦ rw h (q, All-insert_by P ahead x ys p ps)
  ]

  pub All-sort_by :
      (P : A → Type 0) (ahead : A → A → Bool) (xs : List A) → All P xs → All P (sort_by ahead xs)
  unfolding sort_by
  All-sort_by P ahead [] ps = tt
  All-sort_by P ahead (x ∷ xs) (p, ps) =
      All-insert_by P ahead x (sort_by ahead xs) p (All-sort_by P ahead xs ps)

-- thirty days ago is behind sixty days ago
pub later-cutoff : (t d : ℤ) → le_int (days_ago 30 t) d ≡ true → le_int (days_ago 60 t) d ≡ true
unfolding add_int lt_int
later-cutoff (pos t) (pos d) h = ground arith
later-cutoff (pos t) (negsuc d) h = ground arith
later-cutoff (negsuc t) (pos d) h = ground arith
later-cutoff (negsuc t) (negsuc d) h = ground arith

pub rotate-and : (a b c : Bool) → ((a && b) && c) ≡ ((c && a) && b)
rotate-and true true true = refl
rotate-and true true false = refl
rotate-and true false true = refl
rotate-and true false false = refl
rotate-and false b true = refl
rotate-and false b false = refl

pub implied-and : (a b c : Bool) → (a ≡ true → c ≡ true) → (a && b) ≡ ((b && c) && a)
implied-and true true c h = rw (h refl) refl
implied-and true false c h = refl
implied-and false true true h = refl
implied-and false true false h = refl
implied-and false false c h = refl

pub All-map :
    {A B : Type 0} (P : B → Type 0) (f : A → B) (xs : List A)
    → All (λ x. P (f x)) xs
    → All P (map f xs)
All-map P f [] ps = tt
All-map P f (x ∷ xs) (p, ps) = (p, All-map P f xs ps)

pub both_true : (a b : Bool) → (a && b) ≡ true → (a ≡ true) × (b ≡ true)
both_true true b h = (refl, h)
both_true false b h = absurd (cc h)

pub All-implies :
    {A : Type 0} (P Q : A → Type 0) (xs : List A) → ((x : A) → P x → Q x) → All P xs → All Q xs
All-implies P Q [] imp ps = tt
All-implies P Q (x ∷ xs) imp (p, ps) = (imp x p, All-implies P Q xs imp ps)

pub if_some : {A : Type 0} (c : Bool) (x y : A) → (if c then some x else none) ≡ some y → x ≡ y
if_some true x y e = cc e
if_some false x y e = absurd (cc e)
