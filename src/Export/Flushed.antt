-- ===== src/Export/Flushed.antt =====
-- How often a stream flushes.
use dmarcparser.Store.Reports.{Tables}
use dmarcparser.Text.{Bytes}
use mathlib.Core.Path.{subst}
use dmarcparser.Base.{
  ◌==◌, Bool-cases, ℕ, ◌+◌, ◌-◌, ◌%◌, ◌<◌, inl, inr, List, [], ◌∷◌, ==_iff, ◌≡◌, ◌≢◌, arith, ◌≤◌,
  Option-cases,
}
use dmarcparser.Export.{
  HostOf, Faults, Event, csv_line, json_line, csv_flush, flush, Format, csv, jsonl, ExportRow,
  Printers, flush_every, StreamEnd, line_of, flushed, stream_rows, begun, Filter, format_of, stream,
}

-- At most `k` lines before the next flush, and at most 500 between two.
abbrev pub Spaced : ℕ → List Event → Type 0
Spaced k [] = Unit
Spaced k (csv_line r ∷ es) = (0 < k) × Spaced (k - 1) es
Spaced k (json_line r ∷ es) = (0 < k) × Spaced (k - 1) es
Spaced k (csv_flush ∷ es) = Spaced k es
Spaced k (flush ∷ es) = Spaced flush_every es

Spaced-weaken : (k m : ℕ) (es : List Event) → k ≤ m → Spaced k es → Spaced m es
Spaced-weaken k m [] h s = tt
Spaced-weaken k m (csv_line r ∷ es) h (l, s) =
    (omega arith, Spaced-weaken (k - 1) (m - 1) es (omega arith) s)
Spaced-weaken k m (json_line r ∷ es) h (l, s) =
    (omega arith, Spaced-weaken (k - 1) (m - 1) es (omega arith) s)
Spaced-weaken k m (csv_flush ∷ es) h s = Spaced-weaken k m es h s
Spaced-weaken k m (flush ∷ es) h s = s

module _ (pr : Printers) (fa : Faults) (format : Format) where
  Spaced-line :
      (f : Format) (k : ℕ) (r : ExportRow) (es : List Event)
      → 0 < k
      → Spaced (k - 1) es
      → Spaced k (line_of pr fa format f r ∷ es)
  Spaced-line csv k r es h s = (h, s)
  Spaced-line jsonl k r es h s = (h, s)

  Spaced-flushed :
      (f : Format) (k n : ℕ) (next : StreamEnd)
      → Spaced flush_every next.events
      → Spaced k (flushed pr fa format f n next).events
  Spaced-flushed jsonl k n next s = s
  Spaced-flushed csv k n next s = elim (Bool-cases (fa.flush_fails n)) [
    | inl h ↦ rw h tt
    | inr h ↦ rw h s
  ]

  stream_rows-Spaced :
      (n : ℕ) (rs : List ExportRow) → Spaced (500 - n % 500) (stream_rows pr fa format n rs).events
  unfolding stream_rows
  stream_rows-Spaced n [] = Spaced-flushed format _ n _ tt
  stream_rows-Spaced n (r ∷ rs) =
      let R = stream_rows pr fa format (n + 1) rs in
      let rest = stream_rows-Spaced (n + 1) rs in
      elim (Bool-cases (fa.scan_fails n)) [
        | inl a ↦ rw a tt
        | inr a ↦ elim (Bool-cases (fa.write_fails n)) [
          | inl b ↦ rw (a, b) tt
          | inr b ↦ elim (Bool-cases ((n + 1) % 500 == 0)) [
            | inl c ↦
                let full : 500 - (n + 1) % 500 ≡ 500 = omega (arith, (==_iff _ _).0 c) in
                let last = subst (λ k. Spaced k R.events) full rest in
                rw (a, b, c)
                  (Spaced-line format _ r _ (omega arith) (Spaced-flushed format _ (n + 1) R last))
            | inr c ↦
                let apart : (n + 1) % 500 ≢ 0 = λ e. absurd (cc ((==_iff _ _).1 e, c)) in
                let less : 500 - (n + 1) % 500 ≡ 500 - n % 500 - 1 = omega (arith, apart) in
                let last = subst (λ k. Spaced k R.events) less rest in
                rw (a, b, c) (Spaced-line format _ r _ (omega arith) last)
          ]
        ]
      ]

  begun-Spaced : (f : Format) (rs : List ExportRow) → Spaced 501 (begun pr fa format f rs).events
  unfolding stream_rows
  begun-Spaced csv rs = elim (Bool-cases fa.header_fails) [
    | inl h ↦ rw h tt
    | inr h ↦ rw h (omega arith, stream_rows-Spaced 0 rs)
  ]
  begun-Spaced jsonl rs =
      Spaced-weaken 500 501 (stream_rows pr fa format 0 rs).events (omega arith)
        (stream_rows-Spaced 0 rs)

-- Whatever calls fail, a stream never writes more than 500 rows without a flush (with the line of
-- names, 501 lines before the first).
pub stream-Spaced :
    (host : HostOf) (pr : Printers) (fa : Faults) (name : Bytes) (f : Filter) (t : Tables)
    → Spaced 501 (stream host pr fa name f t).events
unfolding stream
stream-Spaced host pr fa name f t = elim (Bool-cases fa.query_fails) [
  | inl h ↦ rw h tt
  | inr h ↦ elim (Option-cases (format_of name)) [
    | inl e ↦ rw (h, e) tt
    | inr (format, e) ↦ simp (h, e) (begun-Spaced pr fa format format _)
  ]
]
