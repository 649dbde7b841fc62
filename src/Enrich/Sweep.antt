-- ===== src/Enrich/Sweep.antt =====
-- A round of `sweep` of parser/internal/enrich/enrich.go, with `UnenrichedIPs` of store/store_intel.go.
-- `first_seen` is always set in the model of `ip_meta`.
use dmarcparser.Base.{
  take, leb, ltb, if◌then◌else◌, length, ℕ, ◌≤◌, Bool, true, false, not, List, [], ◌∷◌, map, ltb→lt,
  Bool-cases, length-append, inl, inr, arith,
}
use dmarcparser.Enrich.{Task, enqueue, queue_size}
use dmarcparser.Stats.{filtered, sort_by}
use dmarcparser.Store.Sources.{IpMeta}
use dmarcparser.Text.{Bytes, is_some}

abbrev pub seen_first : IpMeta → IpMeta → Bool
seen_first a b = leb a.meta_first_seen b.meta_first_seen

-- `UnenrichedIPs`
unfoldable pub unenriched_ips : ℕ → List IpMeta → List Bytes
unfolding filtered sort_by
unenriched_ips limit metas =
    map (λ m. m.meta_ip)
      (take limit (sort_by seen_first (filtered (λ m. not (is_some m.refreshed_at)) metas)))

abbrev pub sweep_batch : ℕ
sweep_batch = 256

-- the loop over the addresses
unfoldable pub enqueue_all : List Bytes → List Task → List Task
enqueue_all [] q = q
enqueue_all (ip ∷ ips) q = enqueue_all ips (enqueue (record { task_ip = ip; hint = [] }) q)

-- a round; a query that fails gives no addresses
unfoldable pub sweep_round : Bool → List IpMeta → List Task → List Task
unfolding unenriched_ips enqueue_all
sweep_round fails metas q = if fails then q else enqueue_all (unenriched_ips sweep_batch metas) q

enqueue_fits :
    (t : Task) (q : List Task) → length q ≤ queue_size → length (enqueue t q) ≤ queue_size
enqueue_fits t q h = elim (Bool-cases (ltb (length q) queue_size)) [
  | inl e ↦ rw e (omega (arith, length-append q (t ∷ []), ltb→lt (length q) queue_size e))
  | inr e ↦ rw e h
]

enqueue_all-length :
    (ips : List Bytes) (q : List Task)
    → length q ≤ queue_size
    → length (enqueue_all ips q) ≤ queue_size
unfolding enqueue_all
enqueue_all-length [] q h = h
enqueue_all-length (ip ∷ ips) q h =
    enqueue_all-length ips _ (enqueue_fits (record { task_ip = ip; hint = [] }) q h)

-- A round never lets the queue grow beyond its size, however many addresses wait.
sweep_round-length :
    (fails : Bool) (metas : List IpMeta) (q : List Task)
    → length q ≤ queue_size
    → length (sweep_round fails metas q) ≤ queue_size
unfolding sweep_round
sweep_round-length true metas q h = h
sweep_round-length false metas q h = enqueue_all-length (unenriched_ips sweep_batch metas) q h
