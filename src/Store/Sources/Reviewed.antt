-- ===== src/Store/Sources/Reviewed.antt =====
-- What an acknowledgement takes from the list of sources to review.
use dmarcparser.Base.{
  Bool-cases, ◌≡◌, refl, inl, inr, true, not, ◌&&◌, List, [], ◌∷◌, sym, ap, ◌∙◌, Bool, false, map,
}
use dmarcparser.Stats.{filtered, sort_by}
use dmarcparser.Store.Sources.{DomainSource, IpMeta, is_source, ack_source}
use dmarcparser.Store.Sources.Listed.{domain_sources, to_review, with_meta, seen_later}
use dmarcparser.Text.{Bytes, beq}

-- to review, and not this source
abbrev stays : Bytes → Bytes → DomainSource → Bool
stays domain ip row = to_review domain true row && not (is_source domain ip row)

and_false : (a : Bool) → (a && false) ≡ false
and_false true = refl
and_false false = refl

filtered_drop :
    {A : Type 0} (p : A → Bool) (x : A) (xs : List A)
    → p x ≡ false
    → filtered p (x ∷ xs) ≡ filtered p xs
unfolding filtered
filtered_drop p x xs h = rw h refl

filtered_keep :
    {A : Type 0} (p : A → Bool) (x : A) (xs : List A)
    → p x ≡ true
    → filtered p (x ∷ xs) ≡ x ∷ filtered p xs
unfolding filtered
filtered_keep p x xs h = rw h refl

ack_source-filtered :
    (domain ip : Bytes) (rows : List DomainSource)
    → filtered (to_review domain true) (ack_source domain ip rows).1
      ≡ filtered (stays domain ip) rows
unfolding filtered ack_source
ack_source-filtered domain ip [] = refl
ack_source-filtered domain ip (row ∷ rows) =
    let rest = ack_source-filtered domain ip rows in
    let next = (ack_source domain ip rows).1 in
    elim (Bool-cases (is_source domain ip row)) [
      | inl h ↦ rw h (
          filtered_drop (to_review domain true) (record row { acked = true }) next
            (and_false (beq row.source_domain domain))
          ∙ rest
          ∙ sym (rw (and_false (to_review domain true row)) refl))
      | inr h ↦ elim (Bool-cases (to_review domain true row)) [
        | inl k ↦
            rw h (
              filtered_keep (to_review domain true) row next k
              ∙ ap (◌∷◌ row) rest
              ∙ sym (rw k refl))
        | inr k ↦ rw h (filtered_drop (to_review domain true) row next k ∙ rest ∙ sym (rw k refl))
      ]
    ]

-- After an acknowledgement, whether there was such a row or not, the sources of the domain to review
-- are those of before but the acknowledged one, the last seen first.
domain_sources-ack_source :
    (domain ip : Bytes) (metas : List IpMeta) (rows : List DomainSource)
    → domain_sources domain true metas (ack_source domain ip rows).1
      ≡ map (with_meta metas) (sort_by seen_later (filtered (stays domain ip) rows))
unfolding domain_sources
domain_sources-ack_source domain ip metas rows =
    ap (λ xs. map (with_meta metas) (sort_by seen_later xs)) (ack_source-filtered domain ip rows)
