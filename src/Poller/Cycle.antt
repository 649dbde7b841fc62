-- ===== src/Poller/Cycle.antt =====
-- `cycle`, `Run` and `Status` of poller.go. What the IMAP server answers in one cycle is a parameter,
-- the order in which Go walks the map of moves included.
use dmarcparser.Base.{
  ltb, if◌then◌else◌, is_empty, ℕ, ◌+◌, Bool, not, Option, none, some, List, [], ◌∷◌, ◌++◌,
}
use dmarcparser.Poller.{
  Outcome, processed, ignored_mail, failed_mail, retry_mail, report_failed, World, Env,
  process_mail,
}
use dmarcparser.Text.{Bytes, codes, beq}

pub data CycleError : Type 0 where
  connect_failed select_failed search_failed fetch_failed : CycleError
  move_failed : Bytes → CycleError

pub record Message : Type 0 where
  pub uid : ℕ
  -- empty if the server sent no body section
  pub raw : Bytes

-- the map `moves`: the messages to move to each folder
abbrev pub Moves : Type 0
Moves = List (Bytes × List ℕ)

pub record Imap : Type 0 where
  pub connects : Bool
  pub selects : Bool
  pub search : Option (List ℕ)
  pub fetch : Option (List Message)
  pub order : Moves → Moves
  pub move_fails : Bytes → Bool

pub record Folders : Type 0 where
  pub folder_processed : Bytes
  pub folder_ignored : Bytes
  pub folder_failed : Bytes

-- `moves[folder] = append(moves[folder], uid)`
unfoldable pub add_move : Bytes → ℕ → Moves → Moves
add_move folder uid [] = (folder, uid ∷ []) ∷ []
add_move folder uid ((f, uids) ∷ ms) =
    if beq f folder then (f, uids ++ uid ∷ []) ∷ ms else (f, uids) ∷ add_move folder uid ms

abbrev pub empty_body : Bytes
empty_body = codes "empty body section"

abbrev pub unparsable : Bytes
unparsable = codes "unparsable report payload"

module _ (fo : Folders) where
  -- the `switch` on the outcome
  unfoldable pub file_mail : Outcome → ℕ → Moves → World → Moves × World
  unfolding add_move
  file_mail processed uid ms w =
      let c = w.counters in
      (
        add_move fo.folder_processed uid ms,
        record w { counters = record c { mails_processed = c.mails_processed + 1 } },
      )
  file_mail ignored_mail uid ms w =
      let c = w.counters in
      (
        add_move fo.folder_ignored uid ms,
        record w { counters = record c { mails_ignored = c.mails_ignored + 1 } },
      )
  file_mail failed_mail uid ms w =
      let c = w.counters in
      (
        add_move fo.folder_failed uid ms,
        record w {
          counters = record c { mails_failed = c.mails_failed + 1 };
          notices = w.notices ++ (report_failed unparsable ∷ []);
        },
      )
  file_mail retry_mail uid ms w = (ms, w)

  -- a message without a body
  unfoldable pub file_empty : ℕ → Moves → World → Moves × World
  unfolding add_move
  file_empty uid ms w =
      let c = w.counters in
      (
        add_move fo.folder_failed uid ms,
        record w {
          counters = record c { mails_failed = c.mails_failed + 1 };
          notices = w.notices ++ (report_failed empty_body ∷ []);
        },
      )

  -- one round of the loop over the messages
  unfoldable pub take_message : Env → Message → Moves → World → Moves × World
  unfolding file_mail file_empty process_mail
  take_message env msg ms w =
      if is_empty msg.raw
      then file_empty msg.uid ms w
      else (let (out, w') = process_mail env msg.raw w in file_mail out msg.uid ms w')

  -- the environment of the saves may change from message to message
  unfoldable pub take_messages : (ℕ → Env) → ℕ → List Message → Moves → World → Moves × World
  unfolding take_message
  take_messages env i [] ms w = (ms, w)
  take_messages env i (m ∷ msgs) ms w =
      let (ms', w') = take_message (env i) m ms w in take_messages env (i + 1) msgs ms' w'

  -- the loop that moves: what was moved, and the error that ended it
  unfoldable pub move_all : (Bytes → Bool) → Moves → Moves × Option CycleError
  move_all fails [] = ([], none)
  move_all fails ((f, uids) ∷ ms) =
      let (done, e) = move_all fails ms in
      if fails f then ([], some (move_failed f)) else ((f, uids) ∷ done, e)

  -- behind the fetch
  unfoldable pub file_messages :
      (ℕ → Env) → Imap → List Message → World → Moves × Option CycleError × World
  unfolding take_messages move_all
  file_messages env im msgs w =
      let (ms, w') = take_messages env 0 msgs [] w in
      let (done, e) = move_all im.move_fails (im.order ms) in (done, e, w')

  unfoldable pub fetch_messages :
      (ℕ → Env) → Imap → List ℕ → World → Moves × Option CycleError × World
  unfolding file_messages
  fetch_messages env im [] w = ([], none, w)
  fetch_messages env im (u ∷ uids) w = elim im.fetch [
    | none ↦ ([], some fetch_failed, w)
    | some msgs ↦ file_messages env im msgs w
  ]

  -- what was moved, the error of the cycle, and the state behind it
  unfoldable pub cycle : (ℕ → Env) → Imap → World → Moves × Option CycleError × World
  unfolding fetch_messages
  cycle env im w =
      if not im.connects
      then ([], some connect_failed, w)
      else if not im.selects
      then ([], some select_failed, w)
      else (elim im.search [
        | none ↦ ([], some search_failed, w)
        | some uids ↦ fetch_messages env im uids w
      ])

-- the gauges that `Run` keeps, and `lastError`; times are Unix seconds, 0 before the first
pub record PollState : Type 0 where
  pub poll_errors : ℕ
  pub consecutive_errors : ℕ
  pub last_poll : ℕ
  pub last_poll_success : ℕ
  pub last_error : Option CycleError

abbrev pub fresh_poll : PollState
fresh_poll = record {
  poll_errors = 0;
  consecutive_errors = 0;
  last_poll = 0;
  last_poll_success = 0;
  last_error = none;
}

-- what one round of `Run` does behind the cycle
unfoldable pub after_cycle : ℕ → Option CycleError → PollState → PollState
after_cycle now (some e) s = record s {
  poll_errors = s.poll_errors + 1;
  consecutive_errors = s.consecutive_errors + 1;
  last_error = some e;
  last_poll = now;
}
after_cycle now none s = record s {
  last_poll_success = now;
  consecutive_errors = 0;
  last_error = none;
  last_poll = now;
}

-- the rounds of `Run`, each with its time and the result of its cycle
unfoldable pub run_rounds : List (ℕ × Option CycleError) → PollState → PollState
unfolding after_cycle
run_rounds [] s = s
run_rounds ((now, e) ∷ rounds) s = run_rounds rounds (after_cycle now e s)

abbrev pub time_of : ℕ → Option ℕ
time_of t = if ltb 0 t then some t else none

-- `Status`, without the interval
pub record Status : Type 0 where
  pub enabled : Bool
  pub last_poll : Option ℕ
  pub last_success : Option ℕ
  pub last_error : Option CycleError

unfoldable pub status : Bytes → PollState → Status
status imap_addr s = record {
  enabled = not (is_empty imap_addr);
  last_poll = time_of s.last_poll;
  last_success = time_of s.last_poll_success;
  last_error = s.last_error;
}
