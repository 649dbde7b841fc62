-- ===== src/Unicode.antt =====
-- Go's Unicode case tables, generated data of the standard library: what the program relies on is
-- that they agree with the ASCII rules on ASCII text.
use dmarcparser.Base.{ℕ, ◌+◌, ◌<◌, Bool, ◌&&◌, ◌≡◌, refl, map, leb, if◌then◌else◌, All}
use dmarcparser.Text.{Bytes, beq}

unfoldable pub ascii_lower : ℕ → ℕ
ascii_lower c = if leb b'A' c && leb c b'Z' then c + 32 else c

abbrev pub IsAscii : Bytes → Type 0
IsAscii = All (λ c. c < 128)

pub record Casing : Type 0 where
  -- `strings.ToLower`
  pub to_lower : Bytes → Bytes
  -- `strings.EqualFold`
  pub equal_fold : Bytes → Bytes → Bool
  pub to_lower_ascii : (s : Bytes) → IsAscii s → to_lower s ≡ map ascii_lower s
  pub equal_fold_ascii :
      (s t : Bytes)
      → IsAscii s
      → IsAscii t
      → equal_fold s t ≡ beq (map ascii_lower s) (map ascii_lower t)

-- The tables cut down to ASCII.
abbrev pub ascii_casing : Casing
ascii_casing = record {
  to_lower = map ascii_lower;
  equal_fold = λ s t. beq (map ascii_lower s) (map ascii_lower t);
  to_lower_ascii = λ s h. refl;
  equal_fold_ascii = λ s t h k. refl;
}
