-- ===== src/Api/Platform/Subscribed.antt =====
-- The handler that adds a subscription.
use dmarcparser.Api.Platform.{SubAnswer, sub_added, valid_at, add_checked, add_request}
use dmarcparser.Base.{
  Bool-cases, Option-cases, is_empty, ◌≡◌, refl, ◌⊎◌, inl, inr, Bool, true, false, Option, none,
  some,
}
use dmarcparser.Digest.Subscriptions.{
  Subscription, SubTable, find_sub, new_sub, add_subscription, find_sub-append, find_sub-new_sub,
}
use dmarcparser.Text.{Bytes, trim_space, cut}
use dmarcparser.Unicode.{Casing}

-- the answer names a subscription that the table has, or the table has not changed
abbrev pub IsAnswered : SubTable → SubAnswer × SubTable → Type 0
IsAnswered t r =
    ((created : Bool) × (s : Subscription) × (r.0 ≡ sub_added created s)
      × (find_sub s.sub_domain s.email r.1.subs ≡ some s)
      × (is_empty s.sub_domain ≡ false))
    ⊎ (r.1.subs ≡ t.subs)

add_checked-IsAnswered :
    (cs : Casing) (add_fails select_fails : Bool) (domain email : Bytes) (t : SubTable)
    → IsAnswered t (add_checked cs add_fails select_fails domain email t)
unfolding add_checked add_subscription
add_checked-IsAnswered cs add_fails select_fails domain email t =
    elim (Bool-cases (is_empty domain)) [
      | inl a ↦ inr (rw a refl)
      | inr a ↦ elim (Bool-cases (valid_at (cut b'@' email))) [
        | inr b ↦ inr (rw (a, b) refl)
        | inl b ↦ elim (Bool-cases add_fails) [
          | inl c ↦ inr (rw (a, b, c) refl)
          | inr c ↦ elim (Option-cases (find_sub domain email t.subs)) [
            | inl e ↦ inl (
              true,
              new_sub domain email t.next_id,
              rw (a, b, c, e) refl,
              rw (a, b, c, e) (find_sub-append domain email t.next_id t.subs e),
              a,
            )
            | inr (s, e) ↦ elim (Bool-cases select_fails) [
              | inl f ↦ inr (rw (a, b, c, e) refl)
              | inr f ↦
                  let same = find_sub-new_sub domain email t.subs e in
                  inl (
                    false,
                    new_sub domain email s.id,
                    rw (a, b, c, e, f) refl,
                    rw (a, b, c, e) (rw (← same) e),
                    a,
                  )
            ]
          ]
        ]
      ]
    ]

-- Whatever the body is and whatever fails: the answer names a subscription that the table now has, for
-- a domain that is not empty, or the subscriptions are what they were.
pub add_request-IsAnswered :
    (cs : Casing) (add_fails select_fails : Bool) (body : Option (Bytes × Bytes)) (t : SubTable)
    → IsAnswered t (add_request cs add_fails select_fails body t)
unfolding add_request
add_request-IsAnswered cs add_fails select_fails none t = inr refl
add_request-IsAnswered cs add_fails select_fails (some (domain, email)) t =
    add_checked-IsAnswered cs add_fails select_fails (cs.to_lower (trim_space domain))
      (trim_space email) t
