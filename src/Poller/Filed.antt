-- ===== src/Poller/Filed.antt =====
-- The messages of a cycle: where `cycle` of poller.go files them, and what it counts.
use dmarcparser.Poller.Counts.{process_mail-Balanced}
use dmarcparser.Poller.Cycle.{
  Message, Moves, Folders, add_move, file_mail, file_empty, take_message, take_messages,
}
use dmarcparser.Text.{Bytes, beq, beq_iff}
use mathlib.Core.Path.{subst}
use mathlib.Core.List.{append-nil, append_assoc}
use dmarcparser.Base.{
  if◌then◌else◌, ℕ, ◌+◌, ◌≡◌, Bool, arith, [], ◌∷◌, Bool-cases, is_empty, inl, inr, List, refl, sym,
  ap, ◌∙◌, true, false, ◌++◌,
}
use dmarcparser.Poller.{
  World, Env, Outcome, processed, ignored_mail, failed_mail, retry_mail, process_mail,
}

-- the messages to move to a folder
abbrev pub uids_at : Bytes → Moves → List ℕ
uids_at f [] = []
uids_at f ((g, uids) ∷ ms) = if beq g f then uids else uids_at f ms

uids_at-add_move :
    (f g : Bytes) (u : ℕ) (ms : Moves)
    → uids_at f (add_move g u ms) ≡ uids_at f ms ++ (if beq g f then u ∷ [] else [])
unfolding add_move
uids_at-add_move f g u [] = refl
uids_at-add_move f g u ((h, us) ∷ ms) = elim (Bool-cases (beq h g)) [
  | inl a ↦ elim (Bool-cases (beq h f)) [
    | inl b ↦
        let c : beq g f ≡ true = subst (λ z. beq z f ≡ true) ((beq_iff h g).0 a) b in
        rw a (rw (b, c) refl)
    | inr b ↦
        let c : beq g f ≡ false = subst (λ z. beq z f ≡ false) ((beq_iff h g).0 a) b in
        rw a (rw (b, c) (sym (append-nil (uids_at f ms))))
  ]
  | inr a ↦ elim (Bool-cases (beq h f)) [
    | inl b ↦ elim (Bool-cases (beq g f)) [
      | inl c ↦
          let both : h ≡ g = (beq_iff h f).0 b ∙ sym ((beq_iff g f).0 c) in
          absurd (cc ((beq_iff h g).1 both, a))
      | inr c ↦ rw a (rw (b, c) (sym (append-nil us)))
    ]
    | inr b ↦ rw a (rw b (uids_at-add_move f g u ms))
  ]
]

-- a message with an empty body is a failed mail; every other ends as `processMail` says
abbrev pub outcome_of : Env → Message → World → Outcome
outcome_of env m w = if is_empty m.raw then failed_mail else (process_mail env m.raw w).0

-- the messages of a cycle, each with its outcome
abbrev pub outcomes : Folders → (ℕ → Env) → ℕ → List Message → Moves → World → List (ℕ × Outcome)
outcomes fo env i [] ms w = []
outcomes fo env i (m ∷ msgs) ms w =
    let r = take_message fo (env i) m ms w in
    (m.uid, outcome_of (env i) m w) ∷ outcomes fo env (i + 1) msgs r.0 r.1

-- the folder for an outcome; a mail to be retried stays where it is
abbrev pub goes_to : Folders → Bytes → Outcome → Bool
goes_to fo f processed = beq fo.folder_processed f
goes_to fo f ignored_mail = beq fo.folder_ignored f
goes_to fo f failed_mail = beq fo.folder_failed f
goes_to fo f retry_mail = false

abbrev pub uids_for : Folders → Bytes → List (ℕ × Outcome) → List ℕ
uids_for fo f [] = []
uids_for fo f ((u, o) ∷ os) = (if goes_to fo f o then u ∷ [] else []) ++ uids_for fo f os

-- how many of the messages were processed, ignored, and failed
abbrev pub processed_in : List (ℕ × Outcome) → ℕ
processed_in [] = 0
processed_in ((u, processed) ∷ os) = 1 + processed_in os
processed_in ((u, ignored_mail) ∷ os) = processed_in os
processed_in ((u, failed_mail) ∷ os) = processed_in os
processed_in ((u, retry_mail) ∷ os) = processed_in os

abbrev pub ignored_in : List (ℕ × Outcome) → ℕ
ignored_in [] = 0
ignored_in ((u, processed) ∷ os) = ignored_in os
ignored_in ((u, ignored_mail) ∷ os) = 1 + ignored_in os
ignored_in ((u, failed_mail) ∷ os) = ignored_in os
ignored_in ((u, retry_mail) ∷ os) = ignored_in os

abbrev pub failed_in : List (ℕ × Outcome) → ℕ
failed_in [] = 0
failed_in ((u, processed) ∷ os) = failed_in os
failed_in ((u, ignored_mail) ∷ os) = failed_in os
failed_in ((u, failed_mail) ∷ os) = 1 + failed_in os
failed_in ((u, retry_mail) ∷ os) = failed_in os

-- Each message is listed for the folder of its outcome and for no other, in order, and counted once
-- by the counter of its outcome.
pub record IsFiled (fo : Folders) (os : List (ℕ × Outcome)) (ms : Moves) (w : World)
    (r : Moves × World) : Type 0 where
  pub listed : (f : Bytes) → uids_at f r.0 ≡ uids_at f ms ++ uids_for fo f os
  pub processed_counted :
      r.1.counters.mails_processed ≡ w.counters.mails_processed + processed_in os
  pub ignored_counted : r.1.counters.mails_ignored ≡ w.counters.mails_ignored + ignored_in os
  pub failed_counted : r.1.counters.mails_failed ≡ w.counters.mails_failed + failed_in os

moved-listed :
    (f g : Bytes) (u : ℕ) (ms : Moves)
    → uids_at f (add_move g u ms) ≡ uids_at f ms ++ ((if beq g f then u ∷ [] else []) ++ [])
moved-listed f g u ms =
    uids_at-add_move f g u ms
    ∙ ap (◌++◌ (uids_at f ms)) (sym (append-nil (if beq g f then u ∷ [] else [])))

file_mail-IsFiled :
    (fo : Folders) (o : Outcome) (u : ℕ) (ms : Moves) (w : World)
    → IsFiled fo ((u, o) ∷ []) ms w (file_mail fo o u ms w)
unfolding file_mail
file_mail-IsFiled fo processed u ms w = record {
  listed = λ f. moved-listed f fo.folder_processed u ms;
  processed_counted = omega arith;
  ignored_counted = omega arith;
  failed_counted = omega arith;
}
file_mail-IsFiled fo ignored_mail u ms w = record {
  listed = λ f. moved-listed f fo.folder_ignored u ms;
  processed_counted = omega arith;
  ignored_counted = omega arith;
  failed_counted = omega arith;
}
file_mail-IsFiled fo failed_mail u ms w = record {
  listed = λ f. moved-listed f fo.folder_failed u ms;
  processed_counted = omega arith;
  ignored_counted = omega arith;
  failed_counted = omega arith;
}
file_mail-IsFiled fo retry_mail u ms w = record {
  listed = λ f. sym (append-nil (uids_at f ms));
  processed_counted = omega arith;
  ignored_counted = omega arith;
  failed_counted = omega arith;
}

take_message-IsFiled :
    (fo : Folders) (env : Env) (m : Message) (ms : Moves) (w : World)
    → IsFiled fo ((m.uid, outcome_of env m w) ∷ []) ms w (take_message fo env m ms w)
unfolding take_message file_empty
take_message-IsFiled fo env m ms w = elim (Bool-cases (is_empty m.raw)) [
  | inl h ↦ rw h (record {
    listed = λ f. moved-listed f fo.folder_failed m.uid ms;
    processed_counted = omega arith;
    ignored_counted = omega arith;
    failed_counted = omega arith;
  })
  | inr h ↦
      let b = process_mail-Balanced env m.raw w in
      let r = process_mail env m.raw w in
      let one = file_mail-IsFiled fo r.0 m.uid ms r.1 in
      rw h (record {
        listed = one.listed;
        processed_counted = omega (arith, b.processed_same, one.processed_counted);
        ignored_counted = omega (arith, b.ignored_same, one.ignored_counted);
        failed_counted = omega (arith, b.failed_same, one.failed_counted);
      })
]

first_and_rest :
    (u : ℕ) (o : Outcome) (os : List (ℕ × Outcome))
    → (processed_in ((u, o) ∷ os) ≡ processed_in ((u, o) ∷ []) + processed_in os)
      × (ignored_in ((u, o) ∷ os) ≡ ignored_in ((u, o) ∷ []) + ignored_in os)
      × (failed_in ((u, o) ∷ os) ≡ failed_in ((u, o) ∷ []) + failed_in os)
first_and_rest u processed os = (omega arith, omega arith, omega arith)
first_and_rest u ignored_mail os = (omega arith, omega arith, omega arith)
first_and_rest u failed_mail os = (omega arith, omega arith, omega arith)
first_and_rest u retry_mail os = (omega arith, omega arith, omega arith)

IsFiled-cons :
    (fo : Folders) (u : ℕ) (o : Outcome) (os : List (ℕ × Outcome)) (ms : Moves) (w : World)
    (p r : Moves × World)
    → IsFiled fo ((u, o) ∷ []) ms w p
    → IsFiled fo os p.0 p.1 r
    → IsFiled fo ((u, o) ∷ os) ms w r
IsFiled-cons fo u o os ms w p r a b =
    let (x, y, z) = first_and_rest u o os in
    record {
      listed = λ f.
          let own = if goes_to fo f o then u ∷ [] else [] in
          let first : uids_at f p.0 ≡ uids_at f ms ++ own =
            a.listed f ∙ ap (◌++◌ (uids_at f ms)) (append-nil own) in
          b.listed f
          ∙ ap (λ us. us ++ uids_for fo f os) first
          ∙ append_assoc (uids_at f ms) own (uids_for fo f os);
      processed_counted = omega (arith, x, a.processed_counted, b.processed_counted);
      ignored_counted = omega (arith, y, a.ignored_counted, b.ignored_counted);
      failed_counted = omega (arith, z, a.failed_counted, b.failed_counted);
    }

-- In a cycle every message is listed and counted by its outcome: one that is processed, ignored or
-- failed, an empty one being failed, is listed once, for the folder of its outcome, and counted once,
-- by the counter of its outcome; one that is left for the next cycle is neither listed nor counted.
pub take_messages-IsFiled :
    (fo : Folders) (env : ℕ → Env) (i : ℕ) (msgs : List Message) (ms : Moves) (w : World)
    → IsFiled fo (outcomes fo env i msgs ms w) ms w (take_messages fo env i msgs ms w)
unfolding take_messages
take_messages-IsFiled fo env i [] ms w = record {
  listed = λ f. sym (append-nil (uids_at f ms));
  processed_counted = omega arith;
  ignored_counted = omega arith;
  failed_counted = omega arith;
}
take_messages-IsFiled fo env i (m ∷ msgs) ms w =
    let p = take_message fo (env i) m ms w in
    IsFiled-cons fo m.uid (outcome_of (env i) m w) (outcomes fo env (i + 1) msgs p.0 p.1) ms w p
      (take_messages fo env (i + 1) msgs p.0 p.1) (take_message-IsFiled fo (env i) m ms w)
      (take_messages-IsFiled fo env (i + 1) msgs p.0 p.1)
