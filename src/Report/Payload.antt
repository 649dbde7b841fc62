-- ===== src/Report/Payload.antt =====
-- parser/internal/report/payload.go: what one raw payload contains. The zip and gzip readers are
-- parameters that deliver streams.
use dmarcparser.Base.{
  ℕ, ◌*◌, ◌^◌, Bool, ◌&&◌, List, [], ◌∷◌, Option, none, some, Result, ok, err, ◌>>=◌, ltb,
  if◌then◌else◌, length, take,
}
use dmarcparser.Text.{Bytes, codes, has_prefix, contains, trim_left}

pub data Kind : Type 0 where
  aggregate tlsrpt : Kind

pub record TypedPayload : Type 0 where
  pub kind : Kind
  pub content : Bytes

-- What a reader delivers: bytes, then the end of the file or an error.
pub record Stream : Type 0 where
  pub bytes : Bytes
  pub broken : Bool

-- The packages `archive/zip` and `compress/gzip`: `none` if the reader cannot be opened.
pub record Archives : Type 0 where
  pub unzip : Bytes → Option (List (Option Stream))
  pub gunzip : Bytes → Option Stream

pub data ExpandError : Type 0 where
  bad_zip bad_zip_entry empty_zip bad_gzip other_gzip : ExpandError

abbrev pub max_decompressed : ℕ
max_decompressed = 256 * 2 ^ 20

-- `io.ReadAll(io.LimitReader(r, n))`: an error behind the limit is never met
unfoldable pub read_limited : ℕ → Stream → Option Bytes
read_limited n r =
    if ltb (length r.bytes) n
    then (if r.broken then none else some r.bytes)
    else some (take n r.bytes)

-- the cutset of `bytes.TrimLeft`: blanks and the byte order mark
abbrev pub lead : List Bytes
lead = (b' ' ∷ []) ∷ (9 ∷ []) ∷ (13 ∷ []) ∷ (10 ∷ []) ∷ (0xef ∷ 0xbb ∷ 0xbf ∷ []) ∷ []

unfoldable pub is_aggregate_xml : Bytes → Bool
is_aggregate_xml b =
    let head = trim_left lead b in
    has_prefix head (codes "<") && contains (take 2048 head) (codes "<feedback")

unfoldable pub is_tlsrpt_json : Bytes → Bool
is_tlsrpt_json b =
    has_prefix (trim_left lead b) (codes "{")
    && (contains b (codes "\"organization-name\"") && contains b (codes "\"policies\""))

unfoldable pub classify : Bytes → Option TypedPayload
classify b =
    if is_aggregate_xml b
    then some (record { kind = aggregate; content = b })
    else if is_tlsrpt_json b
    then some (record { kind = tlsrpt; content = b })
    else none

abbrev pub add_doc : Option TypedPayload → List TypedPayload → List TypedPayload
add_doc none out = out
add_doc (some p) out = p ∷ out

-- opens and reads one entry of a zip file
unfoldable pub read_entry : Option Stream → Result ExpandError Bytes
unfolding read_limited
read_entry none = err bad_zip_entry
read_entry (some r) = elim (read_limited max_decompressed r) [
  | none ↦ err bad_zip_entry
  | some b ↦ ok b
]

-- the loop over `zr.File`
unfoldable pub zip_docs : List (Option Stream) → Result ExpandError (List TypedPayload)
unfolding read_entry
zip_docs [] = ok []
zip_docs (f ∷ fs) = do b ← read_entry f; out ← zip_docs fs; ok (add_doc (classify b) out)

unfoldable pub some_docs : List TypedPayload → Result ExpandError (List TypedPayload)
some_docs [] = err empty_zip
some_docs (p ∷ ps) = ok (p ∷ ps)

abbrev pub one_doc : Option TypedPayload → Result ExpandError (List TypedPayload)
one_doc none = err other_gzip
one_doc (some p) = ok (p ∷ [])

abbrev pub bare_doc : Option TypedPayload → List TypedPayload
bare_doc none = []
bare_doc (some p) = p ∷ []

abbrev pub aggregates_of : List TypedPayload → List Bytes
aggregates_of [] = []
aggregates_of (p ∷ ps) = elim p.kind [
  | aggregate ↦ p.content ∷ aggregates_of ps
  | tlsrpt ↦ aggregates_of ps
]

abbrev pub zip_magic : Bytes
zip_magic = b'P' ∷ b'K' ∷ 3 ∷ 4 ∷ []

abbrev pub gzip_magic : Bytes
gzip_magic = 0x1f ∷ 0x8b ∷ []

module _ (ar : Archives) where
  unfoldable pub expand_zip : Bytes → Result ExpandError (List TypedPayload)
  unfolding zip_docs some_docs
  expand_zip b = elim (ar.unzip b) [
    | none ↦ err bad_zip
    | some files ↦ zip_docs files >>= some_docs
  ]

  unfoldable pub expand_gzip : Bytes → Result ExpandError (List TypedPayload)
  unfolding read_limited
  expand_gzip b = elim (ar.gunzip b) [
    | none ↦ err bad_gzip
    | some r ↦ elim (read_limited max_decompressed r) [
      | none ↦ err bad_gzip
      | some doc ↦ one_doc (classify doc)
    ]
  ]

  -- `ExpandPayloadTyped`: the container is told by its magic bytes
  unfoldable pub expand_typed : Bytes → Result ExpandError (List TypedPayload)
  unfolding expand_zip expand_gzip
  expand_typed b =
      if has_prefix b zip_magic
      then expand_zip b
      else if has_prefix b gzip_magic
      then expand_gzip b
      else ok (bare_doc (classify b))

  -- `ExpandPayload`, the view of the ingest API
  unfoldable pub expand_payload : Bytes → Result ExpandError (List Bytes)
  unfolding expand_typed
  expand_payload b = do typed ← expand_typed b; ok (aggregates_of typed)
