-- ===== src/Api/Reports/Bounded.antt =====
-- What the read handlers ask of the store, and what the health check tells.
use dmarcparser.Base.Int.{ℤ, pos, negsuc}
use mathlib.Core.Path.{subst}
use dmarcparser.Api.Reports.{
  read_ok, Parsers, ListQuery, list_request, healthz, limit_or, parse_time, filter_of, listed,
  read_db_error, or_bad, grace,
}
use dmarcparser.Base.{
  ℕ, ◌+◌, ◌*◌, ◌≤◌, ◌≡◌, ◌↔◌, ◌⊎◌, Bool, true, some, List, [], Option-cases, refl, ◌∙◌, inl, inr,
  false, Option, none, ◌∷◌, arith, ltb, ◌==◌, Bool-cases, ap,
}
use dmarcparser.Store.Listed.{ListFilter, ReportSummary, list_reports}
use dmarcparser.Store.Reports.{Tables}
use dmarcparser.Text.{Bytes}

limit_or-bounds :
    (most def : ℕ) (o : Option ℤ)
    → 1 ≤ def
    → def ≤ most
    → (1 ≤ limit_or most def o) × (limit_or most def o ≤ most)
limit_or-bounds most def none h k = (h, k)
limit_or-bounds most def (some (negsuc n)) h k = (h, k)
limit_or-bounds most def (some (pos n)) h k = ground arith

listed-read_ok :
    (ps : Parsers) (fails : Bool) (t : Tables) (f : ListFilter) {out : List ReportSummary}
    {g : ListFilter}
    → listed ps fails t f ≡ read_ok (out, g)
    → (f ≡ g) × (list_reports f t ≡ some out)
listed-read_ok ps true t f h = absurd (cc)
listed-read_ok ps false t f {out} {g} h = elim (Option-cases (list_reports f t)) [
  | inl e ↦ absurd (cc (rw e at h))
  | inr (rows, e) ↦
      let answer : or_bad {B = List ReportSummary × ListFilter} read_db_error (some rows)
            (λ r. read_ok (r, f))
          ≡ read_ok (out, g) =
        rw e at h in
      let filters : f ≡ g = cc in let found : rows ≡ out = cc in (filters, e ∙ ap some found)
]

-- Every list that is answered was asked for with a limit from 1 to 500, whatever the query says, and
-- it has no more reports than that.
pub list_request-read_ok :
    (ps : Parsers) (fails : Bool) (q : ListQuery) (t : Tables) {out : List ReportSummary}
    {f : ListFilter}
    → list_request ps fails q t ≡ read_ok (out, f)
    → (1 ≤ f.limit) × (f.limit ≤ 500) × (list_reports f t ≡ some out)
unfolding list_request
list_request-read_ok ps fails q t {out} h = elim (Option-cases (parse_time ps q.q_since)) [
  | inl e ↦ absurd (cc (rw e at h))
  | inr (since, e) ↦ elim (Option-cases (parse_time ps q.q_until)) [
    | inl g ↦ absurd (cc (rw (e, g) at h))
    | inr (until, g) ↦
        let (same, found) =
          listed-read_ok ps fails t (filter_of ps q since until) (rw (e, g) at h) in
        let (low, high) = limit_or-bounds 500 50 (ps.atoi q.q_limit) (omega arith) (omega arith) in
        subst (λ k. (1 ≤ k.limit) × (k.limit ≤ 500) × (list_reports k t ≡ some out)) same
          (low, high, found)
  ]
]

healthz_code :
    (pings : Bool) (c : ℕ) (addr : Bytes) (interval last now : ℕ)
    → ((healthz pings (c ∷ addr) interval last now).health_code ≡ 200)
      ↔ ((pings ≡ true) × ((c ∷ addr ≡ []) ⊎ ((last ≡ 0) ⊎ (now ≤ last + (3 * interval + 120)))))
unfolding healthz
healthz_code false c addr interval last now = elim (Bool-cases (last == 0)) [
  | inl z ↦ rw z (ground arith)
  | inr z ↦ elim (Bool-cases (ltb (last + grace interval) now)) [
    | inl late ↦ rw (z, late) (ground arith)
    | inr young ↦ rw (z, young) (ground arith)
  ]
]
healthz_code true c addr interval last now = elim (Bool-cases (last == 0)) [
  | inl z ↦ rw z (ground arith)
  | inr z ↦ elim (Bool-cases (ltb (last + grace interval) now)) [
    | inl late ↦ rw (z, late) (ground arith)
    | inr young ↦ rw (z, young) (ground arith)
  ]
]

-- The health check answers 200 exactly if the database answers and, where a mailbox is polled, no poll
-- has succeeded yet or the last success is recent enough.
pub healthz-health_code :
    (pings : Bool) (addr : Bytes) (interval last now : ℕ)
    → ((healthz pings addr interval last now).health_code ≡ 200)
      ↔ ((pings ≡ true) × ((addr ≡ []) ⊎ ((last ≡ 0) ⊎ (now ≤ last + (3 * interval + 120)))))
unfolding healthz
healthz-health_code true [] interval last now = (λ h. (refl, inl refl), λ h. refl)
healthz-health_code false [] interval last now = ground arith
healthz-health_code true (c ∷ addr) interval last now = healthz_code true c addr interval last now
healthz-health_code false (c ∷ addr) interval last now = healthz_code false c addr interval last now
