-- ===== src/Audit.antt =====
-- parser/internal/audit/audit.go: the letters that wait for a replay, and the rows of the trail. The
-- goroutine of `Record` is one step that may fail; the rows of a table are kept in the order of their
-- ids.
use dmarcparser.Base.{
  ◌==◌, if◌then◌else◌, take, ℕ, Bool, true, not, Option, none, some, List, [], ◌∷◌, ◌++◌,
}
use dmarcparser.Poller.Cycle.{status}
use dmarcparser.Text.{Bytes}
use dmarcparser.Webhook.{DeadLetter}

-- a row of `webhook_deadletter`
pub record LetterRow : Type 0 where
  pub letter_id : ℕ
  pub letter : DeadLetter
  pub replayed : Bool

abbrev pub is_waiting : LetterRow → Bool
is_waiting row = not row.replayed

unfoldable pub waiting : List LetterRow → List LetterRow
waiting [] = []
waiting (row ∷ rows) = let rest = waiting rows in if is_waiting row then row ∷ rest else rest

-- `UnreplayedDeadletters`
unfoldable pub unreplayed_deadletters : ℕ → List LetterRow → List LetterRow
unfolding waiting
unreplayed_deadletters limit rows = take limit (waiting rows)

-- `MarkDeadletterReplayed`
unfoldable pub mark_deadletter_replayed : ℕ → List LetterRow → List LetterRow
mark_deadletter_replayed n [] = []
mark_deadletter_replayed n (row ∷ rows) =
    (if row.letter_id == n then record row { replayed = true } else row)
    ∷ mark_deadletter_replayed n rows

-- a row of `parser_audit`
pub record AuditRow : Type 0 where
  pub actor : Bytes
  pub action : Bytes
  pub route : Bytes
  pub answer_status : ℕ
  pub client_ip : Option Bytes
  pub serials : List ℕ

abbrev pub or_text : Bytes → Option Bytes → Bytes
or_text s none = s
or_text s (some h) = h

-- `net.SplitHostPort`, and `netip.ParseAddr` with `Unmap`
pub record Peers : Type 0 where
  pub host_of : Bytes → Option Bytes
  pub parse_peer : Bytes → Option Bytes

module _ (peers : Peers) where
  -- `Record`
  unfoldable pub record_audit :
      Bool → Bytes → Bytes → Bytes → ℕ → Bytes → List ℕ → List AuditRow → List AuditRow
  record_audit fails actor action route status client serials rows =
      if fails
      then rows
      else rows
        ++ record {
          actor = actor;
          action = action;
          route = route;
          answer_status = status;
          client_ip = peers.parse_peer (or_text client (peers.host_of client));
          serials = serials;
        }
          ∷ []

  -- `Middleware`, with what the handler answered and the serials that it added
  unfoldable pub audited :
      Bool
      → Bytes
      → Bytes
      → Bytes
      → Option Bytes
      → ℕ
      → Bytes
      → List ℕ
      → List AuditRow
      → List AuditRow
  unfolding record_audit
  audited fails actor action path pattern status client serials rows =
      record_audit fails actor action (or_text path pattern) status client serials rows
