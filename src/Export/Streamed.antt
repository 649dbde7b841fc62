-- ===== src/Export/Streamed.antt =====
-- What a stream writes.
use dmarcparser.Store.Reports.{Tables}
use dmarcparser.Text.{Bytes}
use mathlib.Core.List.{append_assoc}
use dmarcparser.Base.{
  ◌==◌, Bool-cases, ℕ, ◌+◌, ◌%◌, inl, inr, List, [], ◌∷◌, length, ◌≡◌, none, map, arith, refl, ap,
  ◌∙◌, false, some, ◌++◌,
}
use dmarcparser.Export.{
  HostOf, Faults, Event, csv_line, json_line, csv_flush, flush, Format, csv, jsonl, ExportRow,
  Printers, StreamEnd, line_of, flushed, stream_rows, begun, after_event, Filter, csv_header,
  export_rows, format_of, stream,
}

-- What reaches the writer of a stream. A line of CSV waits in the buffer of `csv.Writer` until its flush:
-- what is in the buffer at the end is lost. A line of JSON is written at once.
abbrev pub written_out : List Event → List Event → List Event
written_out buffer [] = []
written_out buffer (csv_line r ∷ es) = written_out (buffer ++ csv_line r ∷ []) es
written_out buffer (json_line r ∷ es) = json_line r ∷ written_out buffer es
written_out buffer (csv_flush ∷ es) = buffer ++ written_out [] es
written_out buffer (flush ∷ es) = written_out buffer es

-- what of a buffer is written in the end, and what is left of it by a flush
abbrev drained : Format → List Event → List Event
drained csv q = q
drained jsonl q = []

abbrev left : Format → List Event → List Event
left csv q = []
left jsonl q = q

module _ (pr : Printers) (fa : Faults) (format : Format) where
  -- The rows are counted, no failure is met, and the lines are written, behind those in the buffer.
  record Wrote (n : ℕ) (rs : List ExportRow) (s : StreamEnd) : Type 0 where
    rows_counted : s.written ≡ n + length rs
    no_failure : s.failure ≡ none
    all_lines :
        (q : List Event)
        → written_out q s.events ≡ drained format q ++ map (line_of pr fa format format) rs

  -- the same behind a flush
  record Follows (n : ℕ) (rs : List ExportRow) (s : StreamEnd) : Type 0 where
    count_follows : s.written ≡ n + length rs
    nothing_fails : s.failure ≡ none
    lines_follow :
        (q : List Event)
        → written_out (left format q) s.events ≡ map (line_of pr fa format format) rs

  -- no call of the stream fails
  pub record AllFine : Type 0 where
    pub header_fine : fa.header_fails ≡ false
    pub scan_fine : (n : ℕ) → fa.scan_fails n ≡ false
    pub write_fine : (n : ℕ) → fa.write_fails n ≡ false
    pub flush_fine : (n : ℕ) → fa.flush_fails n ≡ false
    pub rows_fine : fa.rows_fail ≡ false

module _ (pr : Printers) (fa : Faults) where
  Wrote-Follows :
      (f : Format) (n : ℕ) (rs : List ExportRow) (s : StreamEnd)
      → Wrote pr fa f n rs s
      → Follows pr fa f n rs s
  Wrote-Follows csv n rs s w = record {
    count_follows = w.rows_counted;
    nothing_fails = w.no_failure;
    lines_follow = λ q. w.all_lines [];
  }
  Wrote-Follows jsonl n rs s w = record {
    count_follows = w.rows_counted;
    nothing_fails = w.no_failure;
    lines_follow = w.all_lines;
  }

  flushed-Wrote :
      (f : Format) (k n : ℕ) (rs : List ExportRow) (next : StreamEnd)
      → AllFine pr fa f
      → Follows pr fa f n rs next
      → Wrote pr fa f n rs (flushed pr fa f f k next)
  flushed-Wrote csv k n rs next fine w = rw (fine.flush_fine k) (record {
    rows_counted = w.count_follows;
    no_failure = w.nothing_fails;
    all_lines = λ q. ap (◌++◌ q) (w.lines_follow []);
  })
  flushed-Wrote jsonl k n rs next fine w = record {
    rows_counted = w.count_follows;
    no_failure = w.nothing_fails;
    all_lines = w.lines_follow;
  }

  Wrote-line :
      (f : Format) (n : ℕ) (r : ExportRow) (rs : List ExportRow) (s : StreamEnd)
      → Wrote pr fa f (n + 1) rs s
      → Wrote pr fa f n (r ∷ rs) (after_event (line_of pr fa f f r ∷ []) s)
  Wrote-line csv n r rs s w = record {
    rows_counted = omega (arith, w.rows_counted);
    no_failure = w.no_failure;
    all_lines = λ q.
        w.all_lines (q ++ line_of pr fa csv csv r ∷ [])
        ∙ append_assoc q (line_of pr fa csv csv r ∷ []) (map (line_of pr fa csv csv) rs);
  }
  Wrote-line jsonl n r rs s w = record {
    rows_counted = omega (arith, w.rows_counted);
    no_failure = w.no_failure;
    all_lines = λ q. ap (◌∷◌ (json_line r)) (w.all_lines q);
  }

  end_lines : (f : Format) (q : List Event) → written_out (left f q) [] ≡ []
  end_lines f q = refl

  stream_rows-Wrote :
      (f : Format) (n : ℕ) (rs : List ExportRow)
      → AllFine pr fa f
      → Wrote pr fa f n rs (stream_rows pr fa f n rs)
  unfolding stream_rows
  stream_rows-Wrote f n [] fine = flushed-Wrote f n n [] _ fine (
      rw fine.rows_fine
        (record { count_follows = omega arith; nothing_fails = refl; lines_follow = end_lines f }))
  stream_rows-Wrote f n (r ∷ rs) fine =
      let R = stream_rows pr fa f (n + 1) rs in
      let rest = stream_rows-Wrote f (n + 1) rs fine in
      rw (fine.scan_fine n, fine.write_fine n)
        (elim (Bool-cases ((n + 1) % 500 == 0)) [
          | inl c ↦ rw c (
              Wrote-line f n r rs _
                (flushed-Wrote f (n + 1) (n + 1) rs R fine (Wrote-Follows f (n + 1) rs R rest)))
          | inr c ↦ rw c (Wrote-line f n r rs R rest)
        ])

  -- the line of names that CSV begins with
  abbrev pub head_of : Format → List Event
  head_of csv = csv_line csv_header ∷ []
  head_of jsonl = []

  begun-written_out :
      (f : Format) (rs : List ExportRow)
      → AllFine pr fa f
      → let s = begun pr fa f f rs in
        (s.written ≡ length rs)
        × ((s.failure ≡ none) × (written_out [] s.events ≡ head_of f ++ map (line_of pr fa f f) rs))
  begun-written_out csv rs fine =
      let w = stream_rows-Wrote csv 0 rs fine in
      let counted : (stream_rows pr fa csv 0 rs).written ≡ length rs =
        omega (arith, w.rows_counted) in
      simp fine.header_fine (counted, (w.no_failure, w.all_lines (csv_line csv_header ∷ [])))
  begun-written_out jsonl rs fine =
      let w = stream_rows-Wrote jsonl 0 rs fine in
      let counted : (stream_rows pr fa jsonl 0 rs).written ≡ length rs =
        omega (arith, w.rows_counted) in
      (counted, (w.no_failure, w.all_lines []))

-- With no call failing and a format that is supported, a stream ends without an error: what it has
-- written, out of the buffer of the CSV writer too, is the line of names where the format has one, then
-- each row that the query gives once and in order, and it returns their number.
pub stream-written_out :
    (host : HostOf) (pr : Printers) (fa : Faults) (name : Bytes) (f : Filter) (t : Tables)
    (format : Format)
    → fa.query_fails ≡ false
    → AllFine pr fa format
    → format_of name ≡ some format
    → let s = stream host pr fa name f t in
      let rows = export_rows host f t.records t.reports in
      (s.written ≡ length rows)
      × ((s.failure ≡ none)
          × (written_out [] s.events
              ≡ head_of pr fa format ++ map (line_of pr fa format format) rows))
unfolding stream
stream-written_out host pr fa name f t format q fine e =
    simp (q, e) (begun-written_out pr fa format _ fine)
