-- ===== src/Api/Platform/Replayed.antt =====
-- What a replay of the dead letters does to the queue.
use dmarcparser.Api.Platform.{Replay, replay_one, replay_all, replay_done, replay_webhooks}
use dmarcparser.Audit.{LetterRow, mark_deadletter_replayed, unreplayed_deadletters, waiting}
use dmarcparser.Base.{
  ◌==◌, Bool-cases, Option-cases, length, is_empty, any, ℕ, ◌+◌, ◌≡◌, refl, ap, inl, inr, Bool,
  false, not, ◌&&◌, ◌||◌, List, [], ◌∷◌, arith, ◌≤◌, ◌∙◌, ◌⊎◌, true, none, length-take_le,
}
use dmarcparser.Text.{Bytes}
use dmarcparser.Webhook.{Answer, refusal, deliver, deliver_once, Sender}

-- is there a letter with this id that waits?
abbrev pub is_pending : ℕ → List LetterRow → Bool
is_pending n = any (λ row. row.letter_id == n && not row.replayed)

mark-other :
    (n m : ℕ) (rows : List LetterRow)
    → (m == n) ≡ false
    → is_pending n (mark_deadletter_replayed m rows) ≡ is_pending n rows
unfolding mark_deadletter_replayed
mark-other n m [] h = refl
mark-other n m (row ∷ rows) h = elim (Bool-cases (row.letter_id == m)) [
  | inl a ↦
      let miss : (row.letter_id == n) ≡ false = ground arith in rw (a, miss) (mark-other n m rows h)
  | inr a ↦ rw a (ap (λ b. (row.letter_id == n && not row.replayed) || b) (mark-other n m rows h))
]

mark-same : (n : ℕ) (rows : List LetterRow) → is_pending n (mark_deadletter_replayed n rows) ≡ false
unfolding mark_deadletter_replayed
mark-same n [] = refl
mark-same n (row ∷ rows) = elim (Bool-cases (row.letter_id == n)) [
  | inl a ↦ rw (a, a) (mark-same n rows)
  | inr a ↦ rw (a, a) (mark-same n rows)
]

module _ (sign : Bytes → Bytes → Bytes) (secret : Bytes) (answers : ℕ → Answer)
    (mark_fails : ℕ → Bool) where
  -- each letter is counted once
  replay_one-count :
      (row : LetterRow) (s : Replay)
      → (replay_one sign secret answers mark_fails row s).replayed_count
          + (replay_one sign secret answers mark_fails row s).failed_count
        ≡ s.replayed_count + s.failed_count + 1
  unfolding replay_one deliver_once deliver
  replay_one-count row s = elim (Bool-cases (is_empty row.letter.endpoint)) [
    | inl a ↦ rw a (omega arith)
    | inr a ↦ elim (Option-cases (refusal (answers row.letter_id))) [
      | inl e ↦ rw (a, e) (omega arith)
      | inr (t, e) ↦ rw (a, e) (omega arith)
    ]
  ]

  replay_all-count :
      (rows : List LetterRow) (s : Replay)
      → (replay_all sign secret answers mark_fails rows s).replayed_count
          + (replay_all sign secret answers mark_fails rows s).failed_count
        ≡ s.replayed_count + s.failed_count + length rows
  unfolding replay_all
  replay_all-count [] s = omega arith
  replay_all-count (row ∷ rows) s =
      let one = replay_one-count row s in
      let rest = replay_all-count rows (replay_one sign secret answers mark_fails row s) in
      omega arith

  -- a letter stops waiting only if its endpoint accepts it
  replay_one-pending :
      (n : ℕ) (row : LetterRow) (s : Replay)
      → (is_pending n (replay_one sign secret answers mark_fails row s).letters
          ≡ is_pending n s.letters)
        ⊎ (refusal (answers n) ≡ none)
  unfolding replay_one deliver_once deliver
  replay_one-pending n row s = elim (Bool-cases (is_empty row.letter.endpoint)) [
    | inl a ↦ inl (rw a refl)
    | inr a ↦ elim (Option-cases (refusal (answers row.letter_id))) [
      | inr (t, e) ↦ inl (rw (a, e) refl)
      | inl e ↦ elim (Bool-cases (mark_fails row.letter_id)) [
        | inl b ↦ inl (rw (a, e, b) refl)
        | inr b ↦ elim (Bool-cases (row.letter_id == n)) [
          | inl c ↦ let same : row.letter_id ≡ n = ground arith in inr (rw same at e)
          | inr c ↦ inl (rw (a, e, b) (mark-other n row.letter_id s.letters c))
        ]
      ]
    ]
  ]

  replay_all-pending :
      (n : ℕ) (rows : List LetterRow) (s : Replay)
      → (is_pending n (replay_all sign secret answers mark_fails rows s).letters
          ≡ is_pending n s.letters)
        ⊎ (refusal (answers n) ≡ none)
  unfolding replay_all
  replay_all-pending n [] s = inl refl
  replay_all-pending n (row ∷ rows) s = elim (replay_one-pending n row s) [
    | inr e ↦ inr e
    | inl same ↦
        elim (replay_all-pending n rows (replay_one sign secret answers mark_fails row s)) [
          | inr e ↦ inr e
          | inl rest ↦ inl (rest ∙ same)
        ]
  ]

  -- what does not wait will not wait again
  replay_one-settled :
      (n : ℕ) (row : LetterRow) (s : Replay)
      → is_pending n s.letters ≡ false
      → is_pending n (replay_one sign secret answers mark_fails row s).letters ≡ false
  unfolding replay_one deliver_once deliver
  replay_one-settled n row s h = elim (Bool-cases (is_empty row.letter.endpoint)) [
    | inl a ↦ rw a h
    | inr a ↦ elim (Option-cases (refusal (answers row.letter_id))) [
      | inr (t, e) ↦ rw (a, e) h
      | inl e ↦ elim (Bool-cases (mark_fails row.letter_id)) [
        | inl b ↦ rw (a, e, b) h
        | inr b ↦ elim (Bool-cases (row.letter_id == n)) [
          | inl c ↦
              let same : row.letter_id ≡ n = ground arith in
              rw (a, e, b) (rw same (mark-same n s.letters))
          | inr c ↦ rw (a, e, b) (mark-other n row.letter_id s.letters c ∙ h)
        ]
      ]
    ]
  ]

  replay_all-settled :
      (n : ℕ) (rows : List LetterRow) (s : Replay)
      → is_pending n s.letters ≡ false
      → is_pending n (replay_all sign secret answers mark_fails rows s).letters ≡ false
  unfolding replay_all
  replay_all-settled n [] s h = h
  replay_all-settled n (row ∷ rows) s h =
      replay_all-settled n rows (replay_one sign secret answers mark_fails row s)
        (replay_one-settled n row s h)

  replay_one-done :
      (n : ℕ) (row : LetterRow) (s : Replay)
      → row.letter_id ≡ n
      → is_empty row.letter.endpoint ≡ false
      → refusal (answers n) ≡ none
      → mark_fails n ≡ false
      → is_pending n (replay_one sign secret answers mark_fails row s).letters ≡ false
  unfolding replay_one deliver_once deliver
  replay_one-done n row s same a e b = rw (a, same, e, b) (mark-same n s.letters)

  -- a letter of the batch with an endpoint that accepts it
  abbrev pub is_deliverable : ℕ → List LetterRow → Bool
  is_deliverable n = any (λ row. row.letter_id == n && not (is_empty row.letter.endpoint))

  replay_all-done :
      (n : ℕ) (rows : List LetterRow) (s : Replay)
      → is_deliverable n rows ≡ true
      → refusal (answers n) ≡ none
      → mark_fails n ≡ false
      → is_pending n (replay_all sign secret answers mark_fails rows s).letters ≡ false
  unfolding replay_all
  replay_all-done n [] s h e b = absurd (cc)
  replay_all-done n (row ∷ rows) s h e b =
      elim (Bool-cases (row.letter_id == n && not (is_empty row.letter.endpoint))) [
        | inl mine ↦
            let same : row.letter_id ≡ n = ground arith in
            let there : is_empty row.letter.endpoint ≡ false = ground arith in
            replay_all-settled n rows (replay_one sign secret answers mark_fails row s)
              (replay_one-done n row s same there e b)
        | inr other ↦ replay_all-done n rows _ (rw other at h) e b
      ]

  -- The answer of a replay accounts for every letter of the batch, and the batch has at most 500: the
  -- pending letters are those replayed and those that failed.
  pub replay_webhooks-count :
      (letters : List LetterRow) (sender : Sender)
      → (r : ℕ) × (f : ℕ) × ((replay_webhooks sign secret answers mark_fails false letters sender).0
          ≡ replay_done (r + f) r f)
        × (r + f ≤ 500)
  unfolding replay_webhooks unreplayed_deadletters
  replay_webhooks-count letters sender =
      let rows = unreplayed_deadletters 500 letters in
      let s : Replay =
        replay_all sign secret answers mark_fails rows
          (record { replayed_count = 0; failed_count = 0; letters = letters; sender = sender }) in
      let sum : s.replayed_count + s.failed_count ≡ 0 + 0 + length rows = replay_all-count rows _ in
      let few : length rows ≤ 500 = length-take_le 500 (waiting letters) in
      let all : length rows ≡ s.replayed_count + s.failed_count = omega arith in
      (
        s.replayed_count,
        s.failed_count,
        ap (λ k. replay_done k s.replayed_count s.failed_count) all,
        omega arith,
      )

  -- A letter stops waiting only if its endpoint accepts it, whatever else fails.
  pub replay_webhooks-pending :
      (n : ℕ) (list_fails : Bool) (letters : List LetterRow) (sender : Sender)
      → (is_pending n (replay_webhooks sign secret answers mark_fails list_fails letters sender).1.0
          ≡ is_pending n letters)
        ⊎ (refusal (answers n) ≡ none)
  unfolding replay_webhooks
  replay_webhooks-pending n true letters sender = inl refl
  replay_webhooks-pending n false letters sender =
      replay_all-pending n (unreplayed_deadletters 500 letters) _

  -- A letter of the batch stops waiting if it names an endpoint, the endpoint accepts it, and the mark
  -- is written, whatever happens to the other letters.
  pub replay_webhooks-done :
      (n : ℕ) (letters : List LetterRow) (sender : Sender)
      → is_deliverable n (unreplayed_deadletters 500 letters) ≡ true
      → refusal (answers n) ≡ none
      → mark_fails n ≡ false
      → is_pending n (replay_webhooks sign secret answers mark_fails false letters sender).1.0
        ≡ false
  unfolding replay_webhooks
  replay_webhooks-done n letters sender h e b =
      replay_all-done n (unreplayed_deadletters 500 letters) _ h e b
