-- ===== src/Enrich/Worker/Fresh.antt =====
-- What is enriched stays as it is for thirty days, and is never forgotten.
use dmarcparser.Base.{
  ltb, Bool-cases, ℕ, ◌+◌, ◌≤◌, ◌≡◌, refl, inl, inr, true, false, some, List, arith,
}
use dmarcparser.Enrich.{Task}
use dmarcparser.Enrich.Worker.{Dns, Visit, refresh_after, found_for, process_addr, process}
use dmarcparser.Store.Sources.{IpMeta, find_meta, needs_refresh, upsert_meta, sanitized}
use dmarcparser.Store.Sources.Known.{find_meta-upsert_meta}
use dmarcparser.Text.{Bytes}
use dmarcparser.Unicode.{Casing}

module _ (dns : Dns) (cs : Casing) where
  process-upsert :
      (x : Visit) (t : Task) (ms : List IpMeta) {addr : Bytes}
      → dns.parse_addr t.task_ip ≡ some addr
      → x.check_fails ≡ false
      → x.upsert_fails ≡ false
      → needs_refresh x.local_clock (dns.print_addr addr) refresh_after ms ≡ true
      → process dns cs x t ms
        ≡ upsert_meta x.db_clock
            (dns.print_addr addr)
            (sanitized dns.to_valid (found_for dns cs t.hint addr))
            ms
  unfolding process process_addr
  process-upsert x t ms parsed c u need = rw (parsed, process_addr, c, need, u) refl

  -- a row refreshed lately is left alone
  process-recent :
      (y : Visit) (u : Task) (ms : List IpMeta) {addr : Bytes} {m : IpMeta} (s : ℕ)
      → dns.parse_addr u.task_ip ≡ some addr
      → find_meta (dns.print_addr addr) ms ≡ some m
      → m.refreshed_at ≡ some s
      → y.local_clock ≤ s + refresh_after
      → process dns cs y u ms ≡ ms
  unfolding process process_addr needs_refresh
  process-recent y u ms s parsed there when h = elim (Bool-cases y.check_fails) [
    | inl c ↦ rw (parsed, process_addr, c) refl
    | inr c ↦
        let late : ltb (s + refresh_after) y.local_clock ≡ false = ground arith in
        rw (parsed, process_addr, c, there, when, late) refl
  ]

  -- An address that has just been enriched is left alone for thirty days, whatever task names it.
  pub process-process :
      (x y : Visit) (t u : Task) (ms : List IpMeta) {addr : Bytes}
      → dns.parse_addr t.task_ip ≡ some addr
      → dns.parse_addr u.task_ip ≡ some addr
      → x.check_fails ≡ false
      → x.upsert_fails ≡ false
      → needs_refresh x.local_clock (dns.print_addr addr) refresh_after ms ≡ true
      → y.local_clock ≤ x.db_clock + refresh_after
      → process dns cs y u (process dns cs x t ms) ≡ process dns cs x t ms
  process-process x y t u ms {addr} parsed parsed' c f need h =
      let found = sanitized dns.to_valid (found_for dns cs t.hint addr) in
      let (m, there, when) = find_meta-upsert_meta x.db_clock (dns.print_addr addr) found ms in
      rw (process-upsert x t ms parsed c f need)
        (process-recent y u _ x.db_clock parsed' there when h)
