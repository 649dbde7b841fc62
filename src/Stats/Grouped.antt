-- ===== src/Stats/Grouped.antt =====
-- A group holds what its key's rows alone make.
use dmarcparser.Base.{
  if◌then◌else◌, Bool-cases, ◌≡◌, refl, ap, ◌∙◌, ◌↔◌, inl, inr, Bool, true, List, [], ◌∷◌, sym,
  false,
}
use dmarcparser.Stats.{add_to_group, group_by, over_key, find_group, all_of}

module _ {K A R : Type 0} (same : K → K → Bool) (start : A) (key : R → K) (step : R → A → A)
    (same_iff : (a b : K) → (same a b ≡ true) ↔ (a ≡ b)) where
  -- keys that are told apart are not both this one
  same-apart : (a b k : K) → same a b ≡ false → same a k ≡ true → same b k ≡ false
  same-apart a b k h c = elim (Bool-cases (same b k)) [
    | inl d ↦
        let equal : a ≡ b = (same_iff a k).0 c ∙ sym ((same_iff b k).0 d) in
        let both = (same_iff a b).1 equal in absurd (cc (h, both))
    | inr d ↦ d
  ]

  find_group-add_to_group :
      (k : K) (r : R) (gs : List (K × A))
      → find_group same start k (add_to_group same start key step r gs) ≡ (
          if same (key r) k
          then step r (find_group same start k gs)
          else find_group same start k gs)
  unfolding find_group add_to_group
  find_group-add_to_group k r [] = refl
  find_group-add_to_group k r ((k', a) ∷ gs) = elim (Bool-cases (same k' (key r))) [
    | inl h ↦
        let level : same k' k ≡ same (key r) k = ap (λ z. same z k) ((same_iff k' (key r)).0 h) in
        elim (Bool-cases (same (key r) k)) [
          | inl c ↦ rw (h, level, c) refl
          | inr c ↦ rw (h, level, c) refl
        ]
    | inr h ↦ elim (Bool-cases (same k' k)) [
      | inl c ↦
          let other : same (key r) k ≡ false = same-apart k' (key r) k h c in rw (h, other, c) refl
      | inr c ↦ rw (h, c) (find_group-add_to_group k r gs)
    ]
  ]

  pub find_group-group_by :
      (k : K) (rs : List R) (gs : List (K × A))
      → find_group same start k (group_by same start key step rs gs)
        ≡ over_key same start key step k rs (find_group same start k gs)
  unfolding group_by over_key
  find_group-group_by k [] gs = refl
  find_group-group_by k (r ∷ rs) gs =
      find_group-group_by k rs (add_to_group same start key step r gs)
      ∙ ap (over_key same start key step k rs) (find_group-add_to_group k r gs)

-- what holds of every group holds of the one that is looked up
pub find_group-all_of :
    {K A : Type 0} (same : K → K → Bool) (start : A) (p : A → Bool) (k : K) (gs : List (K × A))
    → p start ≡ true
    → all_of (λ g. p g.1) gs ≡ true
    → p (find_group same start k gs) ≡ true
unfolding find_group all_of
find_group-all_of same start p k [] h a = h
find_group-all_of same start p k ((k', x) ∷ gs) h a = elim (Bool-cases (p x)) [
  | inr c ↦ absurd (cc (rw c at a))
  | inl c ↦ elim (Bool-cases (same k' k)) [
    | inl d ↦ rw d c
    | inr d ↦ rw d (find_group-all_of same start p k gs h (rw c at a))
  ]
]
