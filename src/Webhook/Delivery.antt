-- ===== src/Webhook/Delivery.antt =====
-- What the attempts of one delivery leave behind.
use mathlib.Core.Path.{subst}
use mathlib.Core.List.{append-nil}
use dmarcparser.Webhook.{answered}
use dmarcparser.Base.{
  ℕ, ◌+◌, ◌≡◌, Option, none, some, List, [], ◌∷◌, ◌++◌, ltb, Bool-cases, Option-cases, ◌*◌, refl,
  ◌∙◌, inl, inr, arith, sym,
}
use dmarcparser.Text.{Bytes}
use dmarcparser.Webhook.{
  Answer, DeadLetter, Sender, refusal, DeadLetterStore, no_store, insert_fails, insert_works, send,
  bad_request, unreachable, Request, request, sent, deliver, paused, unless_accepted, attempts,
  bury, finish,
}

-- the letter kept for a delivery that was given up
abbrev pub letters_of : DeadLetterStore → Bytes → Bytes → Bytes → Bytes → List DeadLetter
letters_of no_store last url kind body = []
letters_of insert_fails last url kind body = []
letters_of insert_works last url kind body =
    record { endpoint = url; kind = kind; payload = body; last_error = last } ∷ []

abbrev pub and_next : Option Bytes → (Bytes → Option Bytes) → Option Bytes
and_next none f = none
and_next (some e) f = f e

-- The last error if all these attempts are refused, and `none` if one is accepted.
unfoldable pub last_refusal : (ℕ → Answer) → List ℕ → Bytes → Option Bytes
last_refusal answer [] last = some last
last_refusal answer (n ∷ ns) last = elim (refusal (answer n)) [
  | none ↦ none
  | some e ↦ last_refusal answer ns e
]

abbrev pub given_up : (ℕ → Answer) → Option Bytes
given_up answer = last_refusal answer (1 ∷ 2 ∷ 3 ∷ []) []

-- What a delivery that ends with the given error adds to the counter of failures and to the table.
abbrev pub Adds : Option Bytes → DeadLetterStore → Bytes → Bytes → Bytes → Sender → Sender → Type 0
Adds none dls url kind body s s' =
    (s'.webhook_failures ≡ s.webhook_failures) × (s'.dead_letters ≡ s.dead_letters)
Adds (some last) dls url kind body s s' =
    (s'.webhook_failures ≡ s.webhook_failures + 1)
    × (s'.dead_letters ≡ s.dead_letters ++ letters_of dls last url kind body)

-- Only the requests and the pauses differ.
abbrev Keeps : Sender → Sender → Type 0
Keeps s s' = (s'.webhook_failures ≡ s.webhook_failures) × (s'.dead_letters ≡ s.dead_letters)

module _ (sign : Bytes → Bytes → Bytes) (secret : Bytes) where
  sent-Keeps : (a : Answer) (q : Request) (s : Sender) → Keeps s (sent sign secret a q s)
  sent-Keeps (bad_request e) q s = (refl, refl)
  sent-Keeps (unreachable e) q s = (refl, refl)
  sent-Keeps (answered n text) q s = (refl, refl)

  paused-Keeps : (n delay : ℕ) (s : Sender) → Keeps s (paused sign secret n delay s)
  paused-Keeps n delay s = elim (Bool-cases (ltb n 3)) [
    | inl h ↦ (ground arith, ground arith)
    | inr h ↦ (ground arith, ground arith)
  ]

  attempts-Keeps :
      (answer : ℕ → Answer) (ns : List ℕ) (delay : ℕ) (url kind body last : Bytes) (s : Sender)
      → ((attempts sign secret answer ns delay url kind body last s).0
          ≡ last_refusal answer ns last)
        × Keeps s (attempts sign secret answer ns delay url kind body last s).1
  unfolding attempts deliver unless_accepted last_refusal
  attempts-Keeps answer [] delay url kind body last s = (refl, (refl, refl))
  attempts-Keeps answer (n ∷ ns) delay url kind body last s =
      let s1 = sent sign secret (answer n) (request sign secret url kind body) s in
      let k1 = sent-Keeps (answer n) (request sign secret url kind body) s in
      elim (Option-cases (refusal (answer n))) [
        | inl h ↦ rw (h, last_refusal) (refl, k1)
        | inr (e, h) ↦
            let (o, (f, d)) =
              attempts-Keeps answer ns (delay * 4) url kind body e
                (paused sign secret n delay s1) in
            let (f1, d1) = k1 in
            let (f2, d2) = paused-Keeps n delay s1 in
            rw (h, last_refusal) (o, (f ∙ (f2 ∙ f1), d ∙ (d2 ∙ d1)))
      ]

  bury-Adds :
      (dls : DeadLetterStore) (last url kind body : Bytes) (s : Sender)
      → Adds (some last) dls url kind body s (bury sign secret dls last url kind body s)
  unfolding bury
  bury-Adds no_store last url kind body s = (refl, sym (append-nil s.dead_letters))
  bury-Adds insert_fails last url kind body s = (refl, sym (append-nil s.dead_letters))
  bury-Adds insert_works last url kind body s = (refl, refl)

  finish-Adds :
      (dls : DeadLetterStore) (url kind body : Bytes) (s s' : Sender) (o : Option Bytes)
      → Keeps s s'
      → Adds o dls url kind body s (finish sign secret dls url kind body (o, s'))
  unfolding finish
  finish-Adds dls url kind body s s' none k = k
  finish-Adds dls url kind body s s' (some last) (f, d) =
      let (a, b) = bury-Adds dls last url kind body s' in (a ∙ rw f, b ∙ rw d)

  -- A delivery is given up exactly if three attempts in a row are refused; only then is it counted
  -- as a failure, once, and kept as a dead letter with the error of the third attempt, if the store
  -- takes it.
  pub send-Adds :
      (answer : ℕ → Answer) (dls : DeadLetterStore) (url kind body : Bytes) (s : Sender)
      → Adds (given_up answer) dls url kind body s (send sign secret answer dls url kind body s)
  unfolding send
  send-Adds answer dls url kind body s =
      let (o, k) = attempts-Keeps answer (1 ∷ 2 ∷ 3 ∷ []) 2 url kind body [] s in
      let p = attempts sign secret answer (1 ∷ 2 ∷ 3 ∷ []) 2 url kind body [] s in
      subst (λ g. Adds g dls url kind body s (finish sign secret dls url kind body p)) o
        (finish-Adds dls url kind body s p.1 p.0 k)
