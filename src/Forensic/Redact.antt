-- ===== src/Forensic/Redact.antt =====
-- `redactRecipients`: the localparts of addresses in recipient headers are replaced.
-- the bytes that cannot stand in a localpart: `\s<>,;:"` and the `@` itself
use dmarcparser.Base.{◌==◌, if◌then◌else◌, ℕ, Bool, false, ◌||◌, none, some, List, [], ◌∷◌, ◌++◌}
use dmarcparser.Report.Fields.{member}
use dmarcparser.Text.{Bytes, trim_space, split, join, cut, codes}
use dmarcparser.Unicode.{Casing}

unfoldable pub ends_word : ℕ → Bool
ends_word c =
    c == 32
    || c == 9
    || c == 10
    || c == 12
    || c == 13
    || c == b'<'
    || c == b'>'
    || c == b','
    || c == b';'
    || c == b':'
    || c == b'"'
    || c == b'@'

abbrev pub redacted : Bytes
redacted = codes "redacted"

-- what stands for the word in front of an `@`
abbrev pub hide : Bytes → Bytes
hide [] = []
hide (c ∷ w) = redacted

-- `localpartRe.ReplaceAllString(line, "redacted@")`; `w` is the word read so far
unfoldable pub redact_from : Bytes → Bytes → Bytes
unfolding ends_word
redact_from w [] = w
redact_from w (c ∷ s) =
    let fresh = redact_from [] s in
    let longer = redact_from (w ++ c ∷ []) s in
    if c == b'@' then hide w ++ (b'@' ∷ fresh) else if ends_word c then w ++ (c ∷ fresh) else longer

unfoldable pub redact_line : Bytes → Bytes
unfolding redact_from
redact_line = redact_from []

abbrev pub recipient_headers : List Bytes
recipient_headers =
    codes "to"
    ∷ codes "cc"
    ∷ codes "bcc"
    ∷ codes "delivered-to"
    ∷ codes "x-original-to"
    ∷ codes "original-rcpt-to"
    ∷ codes "resent-to"
    ∷ []

-- a folded line goes on with the header above it
unfoldable pub is_folded : Bytes → Bool
is_folded [] = false
is_folded (c ∷ s) = c == b' ' || c == 9

module _ (cs : Casing) where
  -- `inRecipient` behind a line that begins a header
  unfoldable pub starts_recipient : Bytes → Bool
  starts_recipient line = elim (cut b':' line) [
    | none ↦ false
    | some (name, value) ↦ member (cs.to_lower (trim_space name)) recipient_headers
  ]

  -- the loop over the lines
  unfoldable pub redact_lines : Bool → List Bytes → List Bytes
  unfolding redact_line is_folded starts_recipient
  redact_lines inside [] = []
  redact_lines inside (line ∷ lines) =
      let now = if is_folded line then inside else starts_recipient line in
      (if now then redact_line line else line) ∷ redact_lines now lines

  unfoldable pub redact_recipients : Bytes → Bytes
  unfolding redact_lines
  redact_recipients block = join (10 ∷ []) (redact_lines false (split 10 block))
