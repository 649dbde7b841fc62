-- ===== src/Webhook.antt =====
-- parser/internal/webhook/webhook.go, with `InsertWebhookDeadletter` of store/store.go. What the
-- endpoint answers to each attempt is a parameter, like the JSON encoder and the signature.
pub mod Delivery
use dmarcparser.Base.{
  ltb, leb, if◌then◌else◌, is_empty, ℕ, ◌+◌, ◌*◌, Bool, ◌&&◌, Option, none, some, List, [], ◌∷◌,
  ◌++◌,
}
use dmarcparser.Text.{Bytes, codes}

-- How one attempt ends: no request can be built, none is answered, or a status comes back.
pub data Answer : Type 0 where
  bad_request unreachable : Bytes → Answer
  answered : ℕ → Bytes → Answer

pub record Request : Type 0 where
  pub url : Bytes
  pub event : Bytes
  pub signature : Option Bytes
  pub body : Bytes

-- a row of `webhook_deadletter`
pub record DeadLetter : Type 0 where
  pub endpoint : Bytes
  pub kind : Bytes
  pub payload : Bytes
  pub last_error : Bytes

-- the counters of the notifier, the table, and the requests sent and the pauses made so far
pub record Sender : Type 0 where
  pub webhook_failures : ℕ
  pub webhook_deadletters : ℕ
  pub dead_letters : List DeadLetter
  pub requests : List Request
  pub pauses : List ℕ

abbrev pub accepted : ℕ → Bool
accepted n = leb 200 n && ltb n 300

-- what `deliver` returns; `none` for success
unfoldable pub refusal : Answer → Option Bytes
refusal (bad_request e) = some e
refusal (unreachable e) = some e
refusal (answered n text) = if accepted n then none else some (codes "status " ++ text)

-- `n.dls` and how its insert ends
pub data DeadLetterStore : Type 0 where
  no_store insert_fails insert_works : DeadLetterStore

module _ (sign : Bytes → Bytes → Bytes) (secret : Bytes) where
  abbrev pub request : Bytes → Bytes → Bytes → Request
  request url kind body = record {
    url = url;
    event = kind;
    signature = if is_empty secret then none else some (sign secret body);
    body = body;
  }

  -- a request that cannot be built is not sent
  abbrev pub sent : Answer → Request → Sender → Sender
  sent (bad_request e) q s = s
  sent (unreachable e) q s = record s { requests = s.requests ++ q ∷ [] }
  sent (answered n text) q s = record s { requests = s.requests ++ q ∷ [] }

  unfoldable pub deliver : Answer → Bytes → Bytes → Bytes → Sender → Option Bytes × Sender
  unfolding refusal
  deliver a url kind body s = (refusal a, sent a (request url kind body) s)

  -- `DeliverOnce`
  unfoldable pub deliver_once : Answer → Bytes → Bytes → Bytes → Sender → Option Bytes × Sender
  unfolding deliver
  deliver_once a url kind body s = deliver a url kind body s

  abbrev pub paused : ℕ → ℕ → Sender → Sender
  paused attempt delay s = if ltb attempt 3 then record s { pauses = s.pauses ++ delay ∷ [] } else s

  -- on to the next attempt with its error, unless this one was accepted
  unfoldable pub unless_accepted :
      Option Bytes × Sender → (Bytes → Sender → Option Bytes × Sender) → Option Bytes × Sender
  unless_accepted (none, s) next = (none, s)
  unless_accepted (some e, s) next = next e s

  -- the loop over the attempts: the last error, or `none` as soon as one is accepted
  unfoldable pub attempts :
      (ℕ → Answer) → List ℕ → ℕ → Bytes → Bytes → Bytes → Bytes → Sender → Option Bytes × Sender
  unfolding deliver unless_accepted
  attempts answer [] delay url kind body last s = (some last, s)
  attempts answer (n ∷ ns) delay url kind body last s =
      unless_accepted (deliver (answer n) url kind body s)
        (λ e s'. attempts answer ns (delay * 4) url kind body e (paused n delay s'))

  -- behind the last attempt
  unfoldable pub bury : DeadLetterStore → Bytes → Bytes → Bytes → Bytes → Sender → Sender
  bury dls last url kind body s =
      let s' = record s { webhook_failures = s.webhook_failures + 1 } in
      elim dls [
        | no_store ↦ s'
        | insert_fails ↦ s'
        | insert_works ↦ record s' {
          webhook_deadletters = s'.webhook_deadletters + 1;
          dead_letters =
              s'.dead_letters
              ++ (record { endpoint = url; kind = kind; payload = body; last_error = last } ∷ []);
        }
      ]

  unfoldable pub finish : DeadLetterStore → Bytes → Bytes → Bytes → Option Bytes × Sender → Sender
  unfolding bury
  finish dls url kind body (none, s) = s
  finish dls url kind body (some last, s) = bury dls last url kind body s

  -- `send`
  unfoldable pub send : (ℕ → Answer) → DeadLetterStore → Bytes → Bytes → Bytes → Sender → Sender
  unfolding attempts finish
  send answer dls url kind body s =
      finish dls url kind body (attempts answer (1 ∷ 2 ∷ 3 ∷ []) 2 url kind body [] s)

  -- The loop of `NotifyEvent`; the goroutines that it starts touch the state one after the other, in
  -- the order of the list.
  unfoldable pub send_all :
      (Bytes → ℕ → Answer)
      → (Bytes → DeadLetterStore)
      → List Bytes
      → Bytes
      → Bytes
      → Sender
      → Sender
  unfolding send
  send_all answer dls [] kind body s = s
  send_all answer dls (u ∷ us) kind body s =
      send_all answer dls us kind body (send (answer u) (dls u) u kind body s)

  -- `NotifyEvent`, on what `encode` returns
  unfoldable pub notify_event :
      (Bytes → ℕ → Answer)
      → (Bytes → DeadLetterStore)
      → List Bytes
      → Bytes
      → Option Bytes
      → Sender
      → Sender
  unfolding send_all
  notify_event answer dls [] kind body s = s
  notify_event answer dls (u ∷ us) kind none s = s
  notify_event answer dls (u ∷ us) kind (some body) s = send_all answer dls (u ∷ us) kind body s
