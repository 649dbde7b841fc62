-- ===== src/Config/Load/Valid.antt =====
-- What `Load` guarantees.
use dmarcparser.Base.{
  ltb, Bool-cases, length, is_empty, All, Result, ok, err, >>=-eq_ok, ℕ, ◌+◌, ◌≤◌, ◌<◌, ◌≡◌, refl,
  sym, ap, ◌∙◌, ◌⊎◌, inl, inr, false, Option, none, some, List, [], ◌∷◌, arith,
}
use dmarcparser.Base.Int.{ℤ, pos, negsuc}
use dmarcparser.Config.{KeysError, non_blank, split_non_empty, weekdays, find_day, parse_weekday}
use dmarcparser.Config.Load.{
  LoadError, bad_day, Host, Config, or_fail, key_error, get, load_numbers, check_hour,
  check_password, load_password, load_urls, config_of, load_rest, load, read_password, load_hour,
  load_day, load_keys,
}
use dmarcparser.Config.Usable.{IsUsable, parse_api_keys-IsUsable}
use dmarcparser.Text.{Bytes, codes, trim_space}
use dmarcparser.Unicode.{Casing}
use mathlib.Core.Path.{subst}

find_day-lt :
    (cs : Casing) (n : ℕ) (ds : List Bytes) (s : Bytes) {d : ℕ}
    → find_day cs n ds s ≡ some d
    → d < n + length ds
unfolding find_day
find_day-lt cs n [] s e = absurd (cc)
find_day-lt cs n (x ∷ ds) s {d} e = elim (Bool-cases (cs.equal_fold x s)) [
  | inl h ↦ let same : n ≡ d = cc (rw h at e) in omega arith
  | inr h ↦ omega (arith, find_day-lt cs (n + 1) ds s (rw h at e))
]

non_blank-All : (vs : List Bytes) → All (λ v. is_empty v ≡ false) (non_blank vs)
unfolding non_blank
non_blank-All [] = tt
non_blank-All (v ∷ vs) = elim (Bool-cases (is_empty (trim_space v))) [
  | inl h ↦ rw h (non_blank-All vs)
  | inr h ↦ rw h (h, non_blank-All vs)
]

or_fail-eq_ok {ℓ} :
    {A : Type ℓ} (e : LoadError) (o : Option A) {a : A} → or_fail e o ≡ ok a → o ≡ some a
or_fail-eq_ok e none h = absurd (cc)
or_fail-eq_ok e (some a) h = cc

key_error-eq_ok {ℓ} : {A : Type ℓ} (r : Result KeysError A) {a : A} → key_error r ≡ ok a → r ≡ ok a
key_error-eq_ok (ok a) h = cc
key_error-eq_ok (err e) h = absurd (cc)

-- What the service relies on in its configuration.
pub record IsValid {Float : Type 0} (c : Config Float) : Type 0 where
  pub database_set : is_empty c.database_url ≡ false
  pub hour_in_day : c.digest_hour ≤ 23
  pub day_in_week : c.digest_day ≤ 6
  pub password_set : (c.imap_addr ≡ []) ⊎ (is_empty c.imap_password ≡ false)
  pub keys_usable : All IsUsable c.api_keys
  pub urls_set : All (λ u. is_empty u ≡ false) c.webhook_urls

module _ {Float : Type 0} (host : Host Float) where
  check_hour-le : (o : Option ℤ) {n : ℕ} → check_hour host o ≡ ok n → n ≤ 23
  unfolding check_hour
  check_hour-le none h = absurd (cc)
  check_hour-le (some (negsuc k)) h = absurd (cc)
  check_hour-le (some (pos k)) {n} h = elim (Bool-cases (ltb 23 k)) [
    | inl late ↦ absurd (cc (rw late at h))
    | inr fine ↦ let same : k ≡ n = cc (rw fine at h) in ground arith
  ]

  check_password-set :
      (addr password : Bytes) {p : Bytes}
      → check_password host addr password ≡ ok p
      → (addr ≡ []) ⊎ (is_empty p ≡ false)
  unfolding check_password
  check_password-set [] password h = inl refl
  check_password-set (c ∷ addr) password {p} h = elim (Bool-cases (is_empty password)) [
    | inl none_set ↦ absurd (cc (rw none_set at h))
    | inr set ↦ let same : password ≡ p = cc (rw set at h) in inr (ap is_empty (sym same) ∙ set)
  ]

  load_password-set :
      (addr : Bytes) {p : Bytes}
      → load_password host addr ≡ ok p
      → (addr ≡ []) ⊎ (is_empty p ≡ false)
  unfolding load_password
  load_password-set addr h =
      let (q, read, checked) = >>=-eq_ok (read_password host addr) _ h in
      check_password-set addr q checked

  load_urls-All :
      (us : List Bytes)
      → All (λ u. is_empty u ≡ false) us
      → All (λ u. is_empty u ≡ false) (load_urls host us)
  unfolding load_urls split_non_empty
  load_urls-All [] a = non_blank-All _
  load_urls-All (u ∷ us) a = a

  load_rest-IsValid :
      {c : Config Float}
      → is_empty (get host (codes "PARSER_DATABASE_URL") []) ≡ false
      → load_rest host ≡ ok c
      → IsValid c
  unfolding load_rest parse_weekday split_non_empty
  load_rest-IsValid {c} set h =
      let (numbers, n, h1) = >>=-eq_ok (load_numbers host) _ h in
      let (hour, e, h2) = >>=-eq_ok (load_hour host) _ h1 in
      let (day, d, h3) = >>=-eq_ok (load_day host) _ h2 in
      let (password, p, h4) =
        >>=-eq_ok
          (load_password host (get host (codes "PARSER_IMAP_ADDR") (codes "mailserver:993"))) _
          h3 in
      let (keys, k, h5) = >>=-eq_ok (load_keys host) _ h4 in
      let same : config_of host numbers hour day password keys ≡ c = cc in
      subst IsValid same (record {
        database_set = set;
        hour_in_day =
            check_hour-le (host.parse_int (get host (codes "PARSER_DIGEST_HOUR") (codes "7"))) e;
        day_in_week =
            omega (arith, find_day-lt host.casing 0 weekdays _ (or_fail-eq_ok bad_day _ d));
        password_set =
            load_password-set (get host (codes "PARSER_IMAP_ADDR") (codes "mailserver:993")) p;
        keys_usable = parse_api_keys-IsUsable _ (key_error-eq_ok _ k);
        urls_set = load_urls-All _ (non_blank-All _);
      })

  -- Every configuration that `Load` returns is usable: it names a database, the digest's hour and day
  -- exist, a mailbox that is polled has a password, and no API key or webhook URL is empty.
  pub load-IsValid : {c : Config Float} → load host ≡ ok c → IsValid c
  unfolding load
  load-IsValid h = elim (Bool-cases (is_empty (get host (codes "PARSER_DATABASE_URL") []))) [
    | inl missing ↦ absurd (cc (rw missing at h))
    | inr set ↦ load_rest-IsValid set (rw set at h)
  ]
