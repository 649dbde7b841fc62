-- ===== src/Mailx/Collected.antt =====
-- What the parts of a mail contribute.
use dmarcparser.Base.{
  if◌then◌else◌, Result, ok, err, ◌≡◌, Bool, ◌||◌, Option, none, some, List, [], ◌∷◌, ◌++◌,
  Bool-cases, Result-cases, refl, sym, ap, ◌∙◌, inl, inr,
}
use dmarcparser.Mailx.{
  Part, malformed, part, Mime, add_docs, State, part_media_type, expand_part, take_body, take_read,
  take_part, take_parts,
}
use dmarcparser.Report.Payload.{
  TypedPayload, Archives, ExpandError, max_decompressed, read_limited, aggregates_of, expand_typed,
  aggregate, tlsrpt,
}
use dmarcparser.Text.{Bytes, codes, beq}
use dmarcparser.Unicode.{Casing}
use mathlib.Core.List.{append_assoc, append-nil}

-- a part that is read as a failure report or as its original message
abbrev pub is_forensic : Bytes → Bool
is_forensic mt =
    beq mt (codes "message/feedback-report")
    || (beq mt (codes "message/rfc822") || beq mt (codes "text/rfc822-headers"))

abbrev pub docs_of : Result ExpandError (List TypedPayload) → List TypedPayload
docs_of (err e) = []
docs_of (ok docs) = docs

module _ (cs : Casing) (mime : Mime) (ar : Archives) where
  -- The report documents of one part alone.
  abbrev pub body_docs : Bytes → Option Bytes → List TypedPayload
  body_docs mt none = []
  body_docs mt (some b) = if is_forensic mt then [] else docs_of (expand_typed ar b)

  abbrev pub part_docs : Part → List TypedPayload
  part_docs malformed = []
  part_docs (part ct body) =
      body_docs (part_media_type cs mime ar ct) (read_limited max_decompressed body)

  abbrev pub all_docs : List Part → List TypedPayload
  all_docs [] = []
  all_docs (p ∷ ps) = part_docs p ++ all_docs ps

  expand_part-aggregates :
      (body : Bytes) (s : State)
      → (expand_part cs mime ar body s).0.aggregates
        ≡ s.0.aggregates ++ aggregates_of (docs_of (expand_typed ar body))
  unfolding expand_part add_docs
  expand_part-aggregates body (out, first) = elim (Result-cases (expand_typed ar body)) [
    | inl (docs, h) ↦ rw (h, expand_part) refl
    | inr (e, h) ↦ rw (h, expand_part) (sym (append-nil out.aggregates))
  ]

  take_body-aggregates :
      (mt body : Bytes) (s : State)
      → (take_body cs mime ar mt body s).0.aggregates
        ≡ s.0.aggregates ++ aggregates_of (body_docs mt (some body))
  unfolding take_body
  take_body-aggregates mt body (out, first) =
      elim (Bool-cases (beq mt (codes "message/feedback-report"))) [
        | inl a ↦ rw a (sym (append-nil out.aggregates))
        | inr a ↦
            elim (Bool-cases
              (beq mt (codes "message/rfc822") || beq mt (codes "text/rfc822-headers"))) [
                | inl b ↦ rw (a, b) (sym (append-nil out.aggregates))
                | inr b ↦ rw (a, b) (expand_part-aggregates body (out, first))
              ]
      ]

  read_part-aggregates :
      (mt : Bytes) (o : Option Bytes) (s : State)
      → (take_read cs mime ar mt o s).0.aggregates
        ≡ s.0.aggregates ++ aggregates_of (body_docs mt o)
  unfolding take_read
  read_part-aggregates mt none (out, first) = sym (append-nil out.aggregates)
  read_part-aggregates mt (some b) s = take_body-aggregates mt b s

  take_part-aggregates :
      (p : Part) (s : State)
      → (take_part cs mime ar p s).0.aggregates ≡ s.0.aggregates ++ aggregates_of (part_docs p)
  unfolding take_part
  take_part-aggregates malformed (out, first) = sym (append-nil out.aggregates)
  take_part-aggregates (part ct body) s =
      read_part-aggregates _ (read_limited max_decompressed body) s

  aggregates_of-append :
      (xs ys : List TypedPayload) → aggregates_of (xs ++ ys) ≡ aggregates_of xs ++ aggregates_of ys
  aggregates_of-append [] ys = refl
  aggregates_of-append (x ∷ xs) ys =
      elim x.kind
        as (λ k.
          elim k as (λ z. List Bytes) [
            | aggregate ↦ x.content ∷ aggregates_of (xs ++ ys)
            | tlsrpt ↦ aggregates_of (xs ++ ys)
          ]
          ≡ elim k as (λ z. List Bytes) [
            | aggregate ↦ x.content ∷ aggregates_of xs
            | tlsrpt ↦ aggregates_of xs
          ]
            ++ aggregates_of ys) [
              | aggregate ↦ ap (◌∷◌ x.content) (aggregates_of-append xs ys)
              | tlsrpt ↦ aggregates_of-append xs ys
            ]

  -- The aggregate reports that the walk over the parts collects are those of every part by itself,
  -- in order: a part that cannot be read or expanded never hides what another part holds.
  pub take_parts-aggregates :
      (ps : List Part) (s : State)
      → (take_parts cs mime ar ps s).0.aggregates ≡ s.0.aggregates ++ aggregates_of (all_docs ps)
  unfolding take_parts
  take_parts-aggregates [] s = sym (append-nil s.0.aggregates)
  take_parts-aggregates (p ∷ ps) s =
      take_parts-aggregates ps (take_part cs mime ar p s)
      ∙ (ap (λ z. z ++ aggregates_of (all_docs ps)) (take_part-aggregates p s)
          ∙ (append_assoc s.0.aggregates (aggregates_of (part_docs p)) (aggregates_of (all_docs ps))
              ∙ ap (◌++◌ s.0.aggregates) (sym (aggregates_of-append (part_docs p) (all_docs ps)))))
