-- ===== src/Api/Stats/Scores.antt =====
-- The scores of the list of domains are those of their pages.
use dmarcparser.Base.{
  Option-cases, All, ◌≡◌, refl, inl, inr, Bool, true, false, some, List, [], ◌∷◌,
}
use dmarcparser.Text.{Bytes}
use dmarcparser.Api.Stats.{stats_ok, domains_request, health_request}
use dmarcparser.Stats.Domains.Agreed.{list_domains-domain_health_inputs}
use dmarcparser.Stats.Domains.{Database, domain_health_inputs}
use dmarcparser.Stats.Domains.Overview.{DomainSummary, list_domains}
use dmarcparser.Stats.Health.{HealthComponent, HealthInputs, compute_health}
use dmarcparser.Stats.{Reals}
use dmarcparser.Export.{HostOf}

-- The page of `health` for a listed domain.
abbrev pub HasPage : {F : Type 0} → Reals F → HostOf → Database → DomainSummary F → Type 0
HasPage {F} fl host db s =
    (cs : List (HealthComponent F)) × (health_request fl host false db s.domain
      ≡ stats_ok (s.health, cs))

domains_request-list_domains :
    {F : Type 0} (fl : Reals F) (text_le : Bytes → Bytes → Bool) (host : HostOf) (fails : Bool)
    (db : Database) {ds : List (DomainSummary F)}
    → domains_request fl text_le host fails db ≡ stats_ok ds
    → list_domains fl text_le host db ≡ some ds
unfolding domains_request
domains_request-list_domains fl text_le host true db e = absurd (cc e)
domains_request-list_domains fl text_le host false db e =
    elim (Option-cases (list_domains fl text_le host db)) [
      | inl h ↦ absurd (cc (rw h at e))
      | inr (rows, h) ↦ cc (rw h at e, h)
    ]

All-HasPage :
    {F : Type 0} (fl : Reals F) (host : HostOf) (db : Database) (ds : List (DomainSummary F))
    → All
        (λ s.
          (x : HealthInputs) × (domain_health_inputs host db s.domain ≡ some (some x))
          × (s.summary_msgs_30d ≡ x.msgs_30d)
          × (s.health ≡ (compute_health fl x).0))
        ds
    → All (HasPage fl host db) ds
unfolding health_request
All-HasPage fl host db [] h = tt
All-HasPage fl host db (s ∷ ds) ((x, found, traffic, score), h) =
    (((compute_health fl x).1, rw (found, score) refl), All-HasPage fl host db ds h)

-- Where the list of domains is answered, the page of each domain that it names is there, if its
-- queries succeed, and shows the score of the list.
pub domains_request-health_request :
    {F : Type 0} (fl : Reals F) (text_le : Bytes → Bytes → Bool) (host : HostOf) (fails : Bool)
    (db : Database) {ds : List (DomainSummary F)}
    → domains_request fl text_le host fails db ≡ stats_ok ds
    → All (HasPage fl host db) ds
domains_request-health_request fl text_le host fails db {ds} e = All-HasPage fl host db ds (
    list_domains-domain_health_inputs fl text_le host db
      (domains_request-list_domains fl text_le host fails db e))
