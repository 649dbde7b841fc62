-- ===== src/Report/Documents.antt =====
-- What `ExpandPayloadTyped` returns.
use dmarcparser.Base.{
  Bool-cases, Option-cases, All, ok, >>=-eq_ok, ◌≡◌, refl, ◌≢◌, ◌↔◌, inl, inr, true, false, Option,
  none, some, List, [], ◌∷◌, arith, sym,
}
use dmarcparser.Report.Payload.{
  TypedPayload, Stream, Archives, max_decompressed, read_limited, lead, is_aggregate_xml,
  is_tlsrpt_json, classify, add_doc, read_entry, zip_docs, some_docs, one_doc, bare_doc, zip_magic,
  gzip_magic, expand_zip, expand_gzip, expand_typed,
}
use dmarcparser.Text.{Bytes, codes, has_prefix, trim_left}
use mathlib.Core.Path.{subst}

-- A document of the kind that sniffing its bytes gives.
abbrev pub IsDocument : TypedPayload → Type 0
IsDocument p = classify p.content ≡ some p

classify-content : (b : Bytes) {p : TypedPayload} → classify b ≡ some p → p.content ≡ b
unfolding classify
classify-content b e = ground arith

classify-IsDocument : (b : Bytes) {p : TypedPayload} → classify b ≡ some p → IsDocument p
classify-IsDocument b {p} e = subst (λ z. classify z ≡ some p) (sym (classify-content b e)) e

add_doc-IsDocument :
    (b : Bytes) (o : Option TypedPayload) (out : List TypedPayload)
    → classify b ≡ o
    → All IsDocument out
    → All IsDocument (add_doc o out)
add_doc-IsDocument b none out e h = h
add_doc-IsDocument b (some p) out e h = (classify-IsDocument b e, h)

zip_docs-IsDocument :
    (fs : List (Option Stream)) {out : List TypedPayload}
    → zip_docs fs ≡ ok out
    → All IsDocument out
unfolding zip_docs
zip_docs-IsDocument [] {out} e = let empty : [] ≡ out = cc in subst (All IsDocument) empty tt
zip_docs-IsDocument (f ∷ fs) {out} e =
    let (b, read, rest) = >>=-eq_ok (read_entry f) _ e in
    let (more, later, last) = >>=-eq_ok (zip_docs fs) _ rest in
    let built : add_doc (classify b) more ≡ out = cc (last) in
    subst (All IsDocument) built
      (add_doc-IsDocument b (classify b) more refl (zip_docs-IsDocument fs later))

some_docs-eq_ok :
    (l : List TypedPayload) {out : List TypedPayload}
    → some_docs l ≡ ok out
    → (l ≡ out) × (out ≢ [])
unfolding some_docs
some_docs-eq_ok [] e = cc
some_docs-eq_ok (p ∷ ps) {out} e = let same : p ∷ ps ≡ out = cc (e) in (same, λ z. cc (same, z))

-- The payload is neither a zip file nor a gzip stream, and is no report document itself.
abbrev pub IsOther : Bytes → Type 0
IsOther b =
    (has_prefix b zip_magic ≡ false) × (has_prefix b gzip_magic ≡ false) × (classify b ≡ none)

module _ (ar : Archives) where
  expand_zip-IsDocument :
      (b : Bytes) {out : List TypedPayload}
      → expand_zip ar b ≡ ok out
      → All IsDocument out × (out ≢ [])
  unfolding expand_zip
  expand_zip-IsDocument b {out} e = elim (Option-cases (ar.unzip b)) [
    | inl bad ↦ absurd (cc (rw (bad, expand_zip) at e))
    | inr (files, opened) ↦
        let (l, docs, kept) = >>=-eq_ok (zip_docs files) some_docs (rw (opened, expand_zip) at e) in
        let (same, full) = some_docs-eq_ok l kept in
        (subst (All IsDocument) same (zip_docs-IsDocument files docs), full)
  ]

  one_doc-IsDocument :
      (b : Bytes) (o : Option TypedPayload) {out : List TypedPayload}
      → classify b ≡ o
      → one_doc o ≡ ok out
      → All IsDocument out × (out ≢ [])
  one_doc-IsDocument b none k e = absurd (cc)
  one_doc-IsDocument b (some p) {out} k e =
      let same : p ∷ [] ≡ out = cc (e) in
      (subst (All IsDocument) same (classify-IsDocument b k, tt), λ z. cc (same, z))

  expand_gzip-IsDocument :
      (b : Bytes) {out : List TypedPayload}
      → expand_gzip ar b ≡ ok out
      → All IsDocument out × (out ≢ [])
  unfolding expand_gzip
  expand_gzip-IsDocument b {out} e = elim (Option-cases (ar.gunzip b)) [
    | inl bad ↦ absurd (cc (rw (bad, expand_gzip) at e))
    | inr (r, opened) ↦ elim (Option-cases (read_limited max_decompressed r)) [
      | inl broken ↦ absurd (cc (rw (opened, expand_gzip, broken) at e))
      | inr (doc, read) ↦
          one_doc-IsDocument doc (classify doc) refl (rw (opened, expand_gzip, read) at e)
    ]
  ]

  bare_doc-IsDocument :
      (b : Bytes) (o : Option TypedPayload) → classify b ≡ o → All IsDocument (bare_doc o)
  bare_doc-IsDocument b none e = tt
  bare_doc-IsDocument b (some p) e = (classify-IsDocument b e, tt)

  -- Every document that `ExpandPayloadTyped` returns, from a zip file, a gzip stream or a bare
  -- payload, is one that the sniffing recognises, under the kind it is returned with.
  pub expand_typed-IsDocument :
      (b : Bytes) {out : List TypedPayload} → expand_typed ar b ≡ ok out → All IsDocument out
  unfolding expand_typed
  expand_typed-IsDocument b {out} e = elim (Bool-cases (has_prefix b zip_magic)) [
    | inl zip ↦ (expand_zip-IsDocument b (rw zip at e)).0
    | inr z ↦ elim (Bool-cases (has_prefix b gzip_magic)) [
      | inl gzip ↦ (expand_gzip-IsDocument b (rw (z, gzip) at e)).0
      | inr g ↦
          let same : bare_doc (classify b) ≡ out = cc (rw (z, g) at e) in
          subst (All IsDocument) same (bare_doc-IsDocument b (classify b) refl)
    ]
  ]

  bare_doc-nil : (o : Option TypedPayload) → bare_doc o ≡ [] → o ≡ none
  bare_doc-nil none e = refl
  bare_doc-nil (some p) e = absurd (cc)

  expand_typed-nil : (b : Bytes) → expand_typed ar b ≡ ok [] → IsOther b
  unfolding expand_typed
  expand_typed-nil b e = elim (Bool-cases (has_prefix b zip_magic)) [
    | inl zip ↦ absurd ((expand_zip-IsDocument b (rw zip at e)).1 refl)
    | inr z ↦ elim (Bool-cases (has_prefix b gzip_magic)) [
      | inl gzip ↦ absurd ((expand_gzip-IsDocument b (rw (z, gzip) at e)).1 refl)
      | inr g ↦ (z, g, bare_doc-nil (classify b) (cc (rw (z, g) at e)))
    ]
  ]

  IsOther-nil : (b : Bytes) → IsOther b → expand_typed ar b ≡ ok []
  unfolding expand_typed
  IsOther-nil b (z, g, c) = rw (z, g, c)

  -- "No report here" is returned exactly for what is neither a zip file, nor a gzip stream, nor a
  -- report document: a container without a report is an error instead.
  pub expand_typed-nil_iff : (b : Bytes) → (expand_typed ar b ≡ ok []) ↔ IsOther b
  expand_typed-nil_iff b = (expand_typed-nil b, IsOther-nil b)

first_byte :
    (head : Bytes) → has_prefix head (codes "<") ≡ true → has_prefix head (codes "{") ≡ false
unfolding has_prefix
first_byte [] h = refl
first_byte (c ∷ s) h = ground arith

-- The two sniffing tests exclude one another: what is an aggregate report is not a TLS report.
is_aggregate_xml-is_tlsrpt_json : (b : Bytes) → is_aggregate_xml b ≡ true → is_tlsrpt_json b ≡ false
unfolding is_aggregate_xml is_tlsrpt_json
is_aggregate_xml-is_tlsrpt_json b h = ground (arith, first_byte (trim_left lead b))
