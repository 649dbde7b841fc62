-- ===== src/Digest/Subscriptions.antt =====
-- The table `digest_subscription` of parser/internal/digest/digest.go.
use dmarcparser.Base.{
  ◌==◌, if◌then◌else◌, Bool-cases, ℕ, ◌+◌, ◌≡◌, refl, inl, inr, Bool, true, false, ◌&&◌, Option,
  none, some, List, [], ◌∷◌, ◌++◌, Option-cases, arith,
}
use dmarcparser.Text.{Bytes, beq, beq_refl, beq_iff}
use mathlib.Core.Path.{subst}

pub record Subscription : Type 0 where
  pub id : ℕ
  pub sub_domain : Bytes
  pub email : Bytes

pub record SubTable : Type 0 where
  pub subs : List Subscription
  pub next_id : ℕ

abbrev pub is_sub : Bytes → Bytes → Subscription → Bool
is_sub domain email s = beq s.sub_domain domain && beq s.email email

unfoldable pub find_sub : Bytes → Bytes → List Subscription → Option Subscription
find_sub domain email [] = none
find_sub domain email (s ∷ ss) = if is_sub domain email s then some s else find_sub domain email ss

abbrev pub new_sub : Bytes → Bytes → ℕ → Subscription
new_sub domain email n = record { id = n; sub_domain = domain; email = email }

-- the row, and whether it is new; `none` for an error
abbrev pub Added : Type 0
Added = Option (Subscription × Bool)

-- the `INSERT`, and the `SELECT` behind a conflict; the sequence moves on in both cases
abbrev pub added : Bool → Bytes → Bytes → Option Subscription → SubTable → Added × SubTable
added select_fails domain email (some s) t = (
  if select_fails then none else some (new_sub domain email s.id, false),
  record t { next_id = t.next_id + 1 },
)
added select_fails domain email none t = (
  some (new_sub domain email t.next_id, true),
  record { subs = t.subs ++ new_sub domain email t.next_id ∷ []; next_id = t.next_id + 1 },
)

-- `AddSubscription`
unfoldable pub add_subscription : Bool → Bool → Bytes → Bytes → SubTable → Added × SubTable
unfolding find_sub
add_subscription add_fails select_fails domain email t =
    if add_fails
    then (none, t)
    else added select_fails domain email (find_sub domain email t.subs) t

-- `DeleteSubscription`
unfoldable pub delete_subscription : ℕ → List Subscription → Bool × List Subscription
delete_subscription n [] = (false, [])
delete_subscription n (s ∷ ss) =
    let rest = delete_subscription n ss in
    if s.id == n then (true, rest.1) else (rest.0, s ∷ rest.1)

pub find_sub-append :
    (domain email : Bytes) (n : ℕ) (ss : List Subscription)
    → find_sub domain email ss ≡ none
    → find_sub domain email (ss ++ new_sub domain email n ∷ []) ≡ some (new_sub domain email n)
unfolding find_sub
find_sub-append domain email n [] h = rw (beq_refl domain, beq_refl email) refl
find_sub-append domain email n (s ∷ ss) h = elim (Bool-cases (is_sub domain email s)) [
  | inl a ↦ absurd (cc (rw a at h))
  | inr a ↦ rw a (find_sub-append domain email n ss (rw a at h))
]

pub find_sub-new_sub :
    (domain email : Bytes) (ss : List Subscription) {s : Subscription}
    → find_sub domain email ss ≡ some s
    → s ≡ new_sub domain email s.id
unfolding find_sub
find_sub-new_sub domain email [] h = absurd (cc)
find_sub-new_sub domain email (x ∷ ss) {s} h = elim (Bool-cases (is_sub domain email x)) [
  | inl a ↦
      let same : x ≡ s = cc (rw a at h) in
      let d : x.sub_domain ≡ domain = ground (arith, beq_iff x.sub_domain domain) in
      let e : x.email ≡ email = ground (arith, beq_iff x.email email) in
      subst (λ y. y ≡ new_sub domain email y.id) same (rw (← d, ← e) refl)
  | inr a ↦ find_sub-new_sub domain email ss (rw a at h)
]

-- Subscribing again, with no statement failing, finds the subscription of the first time: the same
-- row is returned, as one that was there, and no row is added.
pub add_subscription-add_subscription :
    (domain email : Bytes) (t : SubTable)
    → (s : Subscription) × (fresh : Bool) × ((add_subscription false false domain email t).0
        ≡ some (s, fresh))
      × ((add_subscription false false domain email
            (add_subscription false false domain email t).1).0
          ≡ some (s, false))
      × ((add_subscription false false domain email
            (add_subscription false false domain email t).1).1.subs
          ≡ (add_subscription false false domain email t).1.subs)
unfolding add_subscription
add_subscription-add_subscription domain email t =
    elim (Option-cases (find_sub domain email t.subs)) [
      | inl missing ↦
          let again = find_sub-append domain email t.next_id t.subs missing in
          (
            new_sub domain email t.next_id,
            true,
            rw missing refl,
            rw (missing, again) refl,
            rw (missing, again) refl,
          )
      | inr (s, found) ↦ (
        new_sub domain email s.id,
        false,
        rw found refl,
        rw (found, found) refl,
        rw (found, found) refl,
      )
    ]
