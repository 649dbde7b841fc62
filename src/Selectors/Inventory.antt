-- ===== src/Selectors/Inventory.antt =====
-- `DomainSelectors` of parser/internal/store/store_reports2.go, where the query succeeds. The collation
-- is a parameter.
use dmarcparser.Base.{
  if◌then◌else◌, ℕ, ◌+◌, Bool, false, ◌&&◌, Option, none, some, true, List, [], ◌∷◌,
}
use dmarcparser.Base.Int.{ℤ, lt_int}
use dmarcparser.Selectors.{DkimRow, DkimAuthEntry}
use dmarcparser.Stats.{group_by, sort_by}
use dmarcparser.Store.Listed.{find_serial}
use dmarcparser.Store.Reports.{ReportRow}
use dmarcparser.Text.{Bytes, codes, beq}
use dmarcparser.Stats.Readiness.{same_address}

-- `dkimdomain` and `selector`
abbrev pub SelectorKey : Type 0
SelectorKey = Option Bytes × Option Bytes

abbrev pub same_selector : SelectorKey → SelectorKey → Bool
same_selector a b = same_address a.0 b.0 && same_address a.1 b.1

-- an entry with the dates of its report
pub record SelectorUse : Type 0 where
  pub used_key : SelectorKey
  pub used_begin : ℤ
  pub used_end : ℤ
  pub used_pass : Bool

pub record SelectorRow : Type 0 where
  pub selector_first : Option ℤ
  pub selector_last : Option ℤ
  pub pass_count : ℕ
  pub fail_count : ℕ

abbrev pub unused_selector : SelectorRow
unused_selector = record {
  selector_first = none;
  selector_last = none;
  pass_count = 0;
  fail_count = 0;
}

abbrev pub earlier_of : ℤ → Option ℤ → Option ℤ
earlier_of t none = some t
earlier_of t (some s) = if lt_int t s then some t else some s

abbrev pub later_of : ℤ → Option ℤ → Option ℤ
later_of t none = some t
later_of t (some s) = if lt_int s t then some t else some s

abbrev pub add_use : SelectorUse → SelectorRow → SelectorRow
add_use u row = record {
  selector_first = earlier_of u.used_begin row.selector_first;
  selector_last = later_of u.used_end row.selector_last;
  pass_count = if u.used_pass then row.pass_count + 1 else row.pass_count;
  fail_count = if u.used_pass then row.fail_count else row.fail_count + 1;
}

abbrev pub is_pass : Option Bytes → Bool
is_pass none = false
is_pass (some r) = beq r (codes "pass")

abbrev pub use_of : ReportRow → DkimAuthEntry → SelectorUse
use_of row e = record {
  used_key = (e.dkim_domain, e.dkim_selector);
  used_begin = row.report.begin;
  used_end = row.report.end;
  used_pass = is_pass e.dkim_result;
}

-- `JOIN report`, and `r.domain = $1`
abbrev pub joined_use :
    Bytes → DkimAuthEntry → Option ReportRow → List SelectorUse → List SelectorUse
joined_use domain e none rest = rest
joined_use domain e (some row) rest =
    if beq row.report.domain domain then use_of row e ∷ rest else rest

unfoldable pub selector_uses : Bytes → List ReportRow → List DkimRow → List SelectorUse
unfolding find_serial
selector_uses domain reports [] = []
selector_uses domain reports ((serial, e) ∷ rows) =
    joined_use domain e (find_serial serial reports) (selector_uses domain reports rows)

-- `ORDER BY max(r.maxdate) DESC NULLS LAST`, then by the key
abbrev pub selector_ahead :
    (SelectorKey → SelectorKey → Bool)
    → SelectorKey × SelectorRow
    → SelectorKey × SelectorRow
    → Bool
selector_ahead key_le (k, a) (l, b) = elim a.selector_last [
  | none ↦ elim b.selector_last [ none ↦ key_le k l | some t ↦ false ]
  | some s ↦ elim b.selector_last [
    | none ↦ true
    | some t ↦ if lt_int t s then true else if lt_int s t then false else key_le k l
  ]
]

-- `DomainSelectors`
unfoldable pub domain_selectors :
    (SelectorKey → SelectorKey → Bool)
    → Bytes
    → List ReportRow
    → List DkimRow
    → List (SelectorKey × SelectorRow)
unfolding selector_uses group_by sort_by
domain_selectors key_le domain reports rows = sort_by (selector_ahead key_le) (
    group_by same_selector unused_selector (λ u. u.used_key) add_use
      (selector_uses domain reports rows) [])
