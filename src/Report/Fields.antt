-- ===== src/Report/Fields.antt =====
-- The field helpers of report.go: `trunc`, `optStr`, `normalize`, `pickAuth`, `joinReasons`.
use dmarcparser.Base.{
  ℕ, Bool, List, [], ◌∷◌, ◌++◌, Option, none, some, ltb, if◌then◌else◌, length, take, is_empty, any,
}
use dmarcparser.Text.{Bytes, codes, beq, trim_space, join}
use dmarcparser.Unicode.{Casing}
use dmarcparser.Report.{AuthResult, XmlReason}

-- the byte prefix `s[:n]` of a longer text
unfoldable pub cut_to : ℕ → Bytes → Bytes
cut_to n s = if ltb n (length s) then take n s else s

unfoldable pub trunc : Bytes → ℕ → Bytes
unfolding cut_to
trunc s n = cut_to n (trim_space s)

-- `nil` for the empty string
unfoldable pub non_empty : Bytes → Option Bytes
non_empty [] = none
non_empty (c ∷ s) = some (c ∷ s)

unfoldable pub opt_str : Bytes → ℕ → Option Bytes
unfolding non_empty
opt_str s n = non_empty (trunc s n)

abbrev pub unknown : Bytes
unknown = codes "unknown"

abbrev pub dispositions : List Bytes
dispositions = codes "none" ∷ codes "quarantine" ∷ codes "reject" ∷ codes "unknown" ∷ []

abbrev pub dkim_results : List Bytes
dkim_results =
    codes "none"
    ∷ codes "pass"
    ∷ codes "fail"
    ∷ codes "neutral"
    ∷ codes "policy"
    ∷ codes "temperror"
    ∷ codes "permerror"
    ∷ codes "unknown"
    ∷ []

abbrev pub spf_results : List Bytes
spf_results =
    codes "none"
    ∷ codes "neutral"
    ∷ codes "pass"
    ∷ codes "fail"
    ∷ codes "softfail"
    ∷ codes "temperror"
    ∷ codes "permerror"
    ∷ codes "unknown"
    ∷ []

abbrev pub aligns : List Bytes
aligns = codes "fail" ∷ codes "pass" ∷ codes "unknown" ∷ []

-- membership in a Go set
unfoldable pub member : Bytes → List Bytes → Bool
member v = any (beq v)

unfoldable pub add_comment : Bytes → Bytes → Bytes
add_comment s c = if is_empty c then s else s ++ (codes ": " ++ c)

-- one round of the loop of `joinReasons`
unfoldable pub reason_text : XmlReason → Bytes
unfolding add_comment
reason_text r = add_comment (trim_space r.kind) (trim_space r.comment)

unfoldable pub reason_parts : List XmlReason → List Bytes
unfolding reason_text
reason_parts [] = []
reason_parts (r ∷ rs) =
    let rest = reason_parts rs in if is_empty (reason_text r) then rest else reason_text r ∷ rest

unfoldable pub join_reasons : List XmlReason → Bytes
unfolding reason_parts
join_reasons rs = join (codes "; ") (reason_parts rs)

module _ (cs : Casing) where
  unfoldable pub normalize : Bytes → List Bytes → Bytes
  unfolding member
  normalize v allowed =
      let low = cs.to_lower (trim_space v) in if member low allowed then low else unknown

  -- `strings.EqualFold(strings.TrimSpace(ar.Result), "pass")`
  unfoldable pub passed : AuthResult → Bool
  passed a = cs.equal_fold (trim_space a.result) (codes "pass")

  -- the loop of `pickAuth`; `chosen` is the entry to keep if none passed
  unfoldable pub pick_loop : AuthResult → List AuthResult → AuthResult
  unfolding passed
  pick_loop chosen [] = chosen
  pick_loop chosen (a ∷ rest) = let later = pick_loop chosen rest in if passed a then a else later

  unfoldable pub pick_auth : List AuthResult → Option AuthResult
  unfolding pick_loop
  pick_auth [] = none
  pick_auth (a ∷ rest) = some (pick_loop a (a ∷ rest))
