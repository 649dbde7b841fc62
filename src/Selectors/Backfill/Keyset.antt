-- ===== src/Selectors/Backfill/Keyset.antt =====
-- Keyset batches: rows by rising serials, cut behind the last one taken.
use dmarcparser.Base.{
  ltb, length, take, drop, is_empty, All, All-append, ℕ, zero, suc, ◌≤◌, ◌<◌, ◌≡◌, refl, ap, ◌∙◌,
  ◌⊎◌, inl, inr, true, false, List, [], ◌∷◌, ◌++◌, arith,
}
use dmarcparser.Selectors.Backfill.{RawRow, newer}
use mathlib.Core.List.{append_assoc}

-- Serials above `b` that rise.
abbrev pub Rising : ℕ → List RawRow → Type 0
Rising b [] = Unit
Rising b (row ∷ rows) = (b < row.0) × Rising row.0 rows

abbrev pub last_of : ℕ → List RawRow → ℕ
last_of b [] = b
last_of b (row ∷ rows) = last_of row.0 rows

abbrev UpTo : ℕ → List RawRow → Type 0
UpTo b = All (λ row. row.0 ≤ b)

UpTo-weaken : (b c : ℕ) (rows : List RawRow) → b ≤ c → UpTo b rows → UpTo c rows
UpTo-weaken b c [] h a = tt
UpTo-weaken b c (row ∷ rows) h (k, a) = (omega arith, UpTo-weaken b c rows h a)

newer-done : (b : ℕ) (xs ys : List RawRow) → UpTo b xs → newer b (xs ++ ys) ≡ newer b ys
unfolding newer
newer-done b [] ys a = refl
newer-done b (x ∷ xs) ys (k, a) =
    let old : ltb b x.0 ≡ false = ground arith in rw old (newer-done b xs ys a)

newer-todo : (b c : ℕ) (xs : List RawRow) → b ≤ c → Rising c xs → newer b xs ≡ xs
unfolding newer
newer-todo b c [] h r = refl
newer-todo b c (x ∷ xs) h (k, r) =
    let young : ltb b x.0 ≡ true = ground arith in
    rw young (ap (◌∷◌ x) (newer-todo b x.0 xs (omega arith) r))

last_of-le : (b : ℕ) (rows : List RawRow) → Rising b rows → b ≤ last_of b rows
last_of-le b [] r = omega arith
last_of-le b (x ∷ rows) (k, r) = let le = last_of-le x.0 rows r in omega arith

Rising-take : (n b : ℕ) (rows : List RawRow) → Rising b rows → Rising b (take n rows)
Rising-take zero b rows r = tt
Rising-take (suc n) b [] r = tt
Rising-take (suc n) b (x ∷ rows) (k, r) = (k, Rising-take n x.0 rows r)

Rising-drop :
    (n b : ℕ) (rows : List RawRow) → Rising b rows → Rising (last_of b (take n rows)) (drop n rows)
Rising-drop zero b rows r = r
Rising-drop (suc n) b [] r = tt
Rising-drop (suc n) b (x ∷ rows) (k, r) = Rising-drop n x.0 rows r

Rising-UpTo : (b : ℕ) (rows : List RawRow) → Rising b rows → UpTo (last_of b rows) rows
Rising-UpTo b [] r = tt
Rising-UpTo b (x ∷ rows) (k, r) = (last_of-le x.0 rows r, Rising-UpTo x.0 rows r)

pub take-append-drop {ℓ} : {A : Type ℓ} (n : ℕ) (xs : List A) → take n xs ++ drop n xs ≡ xs
take-append-drop zero xs = refl
take-append-drop (suc n) [] = refl
take-append-drop (suc n) (x ∷ xs) = ap (◌∷◌ x) (take-append-drop n xs)

length-drop_le {ℓ} : {A : Type ℓ} (n : ℕ) (xs : List A) → length (drop n xs) ≤ length xs
length-drop_le zero xs = omega arith
length-drop_le (suc n) [] = omega arith
length-drop_le (suc n) (x ∷ xs) = omega (arith, length-drop_le n xs)

pub drop-shorter {ℓ} :
    {A : Type ℓ} (n : ℕ) (xs : List A)
    → 0 < n
    → (is_empty (take n xs) ≡ is_empty xs)
      × ((is_empty xs ≡ true) ⊎ ((is_empty xs ≡ false) × (length (drop n xs) < length xs)))
drop-shorter zero xs h = absurd (omega arith)
drop-shorter (suc n) [] h = (refl, inl refl)
drop-shorter (suc n) (x ∷ xs) h = (refl, inr (refl, omega (arith, length-drop_le n xs)))

-- Where a loop stands: these rows are done, and those are to do.
pub record Stands (rows : List RawRow) (after : ℕ) (todo : List RawRow) : Type 0 where
  pub past : List RawRow
  pub all_rows : past ++ todo ≡ rows
  pub past_done : UpTo after past
  pub rising : Rising after todo

pub Stands-newer :
    (rows : List RawRow) (after : ℕ) (todo : List RawRow)
    → Stands rows after todo
    → newer after rows ≡ todo
Stands-newer rows after todo s =
    rw (← s.all_rows) (
      newer-done after s.past todo s.past_done ∙ newer-todo after after todo (omega arith) s.rising)

pub Stands-next :
    (n : ℕ) (rows : List RawRow) (after : ℕ) (todo : List RawRow)
    → Stands rows after todo
    → Stands rows (last_of after (take n todo)) (drop n todo)
Stands-next n rows after todo s = record {
  past = s.past ++ take n todo;
  all_rows =
      append_assoc s.past (take n todo) (drop n todo)
      ∙ ap (◌++◌ s.past) (take-append-drop n todo)
      ∙ s.all_rows;
  past_done =
      All-append (λ row. row.0 ≤ last_of after (take n todo)) s.past (take n todo)
        (UpTo-weaken after _ s.past (last_of-le after _ (Rising-take n after todo s.rising))
          s.past_done)
        (Rising-UpTo after (take n todo) (Rising-take n after todo s.rising));
  rising = Rising-drop n after todo s.rising;
}

pub Stands-start : (rows : List RawRow) → Rising 0 rows → Stands rows 0 rows
Stands-start rows rising = record { past = []; all_rows = refl; past_done = tt; rising = rising }
