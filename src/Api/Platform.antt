-- ===== src/Api/Platform.antt =====
-- parser/internal/api/api_platform.go: the requeue of failed mail, the replay of dead letters, and the
-- subscriptions of the digest. The IMAP server and the webhook endpoints answer by parameters.
pub mod Replayed
pub mod Requeued
pub mod Subscribed
use dmarcparser.Audit.{LetterRow, unreplayed_deadletters, mark_deadletter_replayed}
use dmarcparser.Base.{
  if◌then◌else◌, length, is_empty, ℕ, ◌+◌, Bool, false, not, ◌&&◌, ◌||◌, Option, none, some, List,
  [], ◌∷◌, ◌++◌, map,
}
use dmarcparser.Base.Int.{ℤ, pos, negsuc}
use dmarcparser.Text.{Bytes, trim_space, cut}
use dmarcparser.Unicode.{Casing}
use dmarcparser.Webhook.{Answer, Sender, deliver_once}
use dmarcparser.Digest.Subscriptions.{
  Added, SubTable, add_subscription, delete_subscription, Subscription,
}

-- `replayWebhooks`: a database error, or the three numbers
pub data ReplayAnswer : Type 0 where
  replay_db_error : ReplayAnswer
  replay_done : ℕ → ℕ → ℕ → ReplayAnswer

pub record Replay : Type 0 where
  pub replayed_count : ℕ
  pub failed_count : ℕ
  pub letters : List LetterRow
  pub sender : Sender

module _ (sign : Bytes → Bytes → Bytes) (secret : Bytes) (answers : ℕ → Answer)
    (mark_fails : ℕ → Bool) where
  abbrev pub one_failed : Replay → Replay
  one_failed s = record s { failed_count = s.failed_count + 1 }

  -- behind `DeliverOnce`
  abbrev pub delivered_once : ℕ → Replay → Option Bytes × Sender → Replay
  delivered_once n s (some e, sender) = one_failed (record s { sender = sender })
  delivered_once n s (none, sender) = record {
    replayed_count = s.replayed_count + 1;
    failed_count = s.failed_count;
    letters = if mark_fails n then s.letters else mark_deadletter_replayed n s.letters;
    sender = sender;
  }

  unfoldable pub replay_one : LetterRow → Replay → Replay
  unfolding deliver_once mark_deadletter_replayed
  replay_one row s =
      let dl = row.letter in
      if is_empty dl.endpoint
      then one_failed s
      else delivered_once row.letter_id s
          (deliver_once sign secret (answers row.letter_id) dl.endpoint dl.kind dl.payload s.sender)

  unfoldable pub replay_all : List LetterRow → Replay → Replay
  unfolding replay_one
  replay_all [] s = s
  replay_all (row ∷ rows) s = replay_all rows (replay_one row s)

  abbrev pub replay_limit : ℕ
  replay_limit = 500

  -- `replayWebhooks`
  unfoldable pub replay_webhooks :
      Bool → List LetterRow → Sender → ReplayAnswer × (List LetterRow × Sender)
  unfolding replay_all unreplayed_deadletters
  replay_webhooks list_fails letters sender =
      let rows = unreplayed_deadletters replay_limit letters in
      let s =
        replay_all rows
          (record { replayed_count = 0; failed_count = 0; letters = letters; sender = sender }) in
      if list_fails
      then (replay_db_error, (letters, sender))
      else (replay_done (length rows) s.replayed_count s.failed_count, (s.letters, s.sender))

-- the calls of the IMAP server that `requeueFailed` makes
pub data RequeueStep : Type 0 where
  connect_imap select_folder search_all clear_seen move_inbox : RequeueStep

pub data RequeueAnswer : Type 0 where
  poller_disabled : RequeueAnswer
  imap_error : RequeueStep → RequeueAnswer
  requeued : ℕ → RequeueAnswer

-- a message, and whether it has `\Seen`
abbrev pub Mail : Type 0
Mail = ℕ × Bool

pub record Mailboxes : Type 0 where
  pub failed_mails : List Mail
  pub inbox : List Mail
  -- calls of `TriggerNow`
  pub triggers : ℕ

abbrev pub unseen : List Mail → List Mail
unseen = map (λ m. (m.0, false))

-- the two mailboxes as the server leaves them
abbrev pub Left : Type 0
Left = List Mail × List Mail

abbrev pub left_behind : Left → Mailboxes → Mailboxes
left_behind (failed, inbox) s = record s { failed_mails = failed; inbox = inbox }

-- Behind the search. What a failing STORE or MOVE leaves is the server's: a MOVE may have moved, or, as
-- COPY, STORE and EXPUNGE, copied a part of the mails.
unfoldable pub requeue_found :
    (RequeueStep → Bool) → (RequeueStep → Left) → Mailboxes → RequeueAnswer × Mailboxes
requeue_found fails left s =
    if is_empty s.failed_mails
    then (requeued 0, s)
    else if fails clear_seen
    then (imap_error clear_seen, left_behind (left clear_seen) s)
    else if fails move_inbox
    then (imap_error move_inbox, left_behind (left move_inbox) s)
    else (
      requeued (length s.failed_mails),
      record {
        failed_mails = [];
        inbox = s.inbox ++ unseen s.failed_mails;
        triggers = s.triggers + 1;
      },
    )

-- `requeueFailed`
unfoldable pub requeue_failed :
    Bytes → (RequeueStep → Bool) → (RequeueStep → Left) → Mailboxes → RequeueAnswer × Mailboxes
unfolding requeue_found
requeue_failed imap_addr fails left s =
    if is_empty imap_addr
    then (poller_disabled, s)
    else if fails connect_imap
    then (imap_error connect_imap, s)
    else if fails select_folder
    then (imap_error select_folder, s)
    else if fails search_all
    then (imap_error search_all, s)
    else requeue_found fails left s

-- the answers of the subscription handlers
pub data SubAnswer : Type 0 where
  sub_bad_json sub_invalid sub_db_error sub_bad_id sub_missing sub_deleted : SubAnswer
  sub_added : Bool → Subscription → SubAnswer

-- is there an `@` that is neither the first nor the last byte? The first one counts.
abbrev pub valid_at : Option (Bytes × Bytes) → Bool
valid_at none = false
valid_at (some (a, b)) = not (is_empty a) && not (is_empty b)

abbrev pub sub_answer : Added → SubAnswer
sub_answer none = sub_db_error
sub_answer (some (s, created)) = sub_added created s

module _ (cs : Casing) where
  unfoldable pub add_checked : Bool → Bool → Bytes → Bytes → SubTable → SubAnswer × SubTable
  unfolding add_subscription cut
  add_checked add_fails select_fails domain email t =
      if is_empty domain || not (valid_at (cut b'@' email))
      then (sub_invalid, t)
      else let r = add_subscription add_fails select_fails domain email t in (sub_answer r.0, r.1)

  -- `addSubscription`, with the decoded body
  unfoldable pub add_request :
      Bool → Bool → Option (Bytes × Bytes) → SubTable → SubAnswer × SubTable
  unfolding add_checked trim_space
  add_request add_fails select_fails none t = (sub_bad_json, t)
  add_request add_fails select_fails (some (domain, email)) t =
      add_checked add_fails select_fails (cs.to_lower (trim_space domain)) (trim_space email) t

-- behind the lookup of the id
abbrev pub deleted_answer : Bool → SubAnswer
deleted_answer found = if found then sub_deleted else sub_missing

-- `deleteSubscription`; a negative id is in no row
unfoldable pub delete_request : Bool → Option ℤ → List Subscription → SubAnswer × List Subscription
unfolding delete_subscription
delete_request fails none ss = (sub_bad_id, ss)
delete_request fails (some (negsuc n)) ss = if fails then (sub_db_error, ss) else (sub_missing, ss)
delete_request fails (some (pos n)) ss =
    let r = delete_subscription n ss in
    if fails then (sub_db_error, ss) else (deleted_answer r.0, r.1)
