-- ===== src/Config/Load.antt =====
-- `Load` of parser/internal/config/config.go. The environment, the files and the parsers of
-- `strconv` and `time` are parameters; durations are nanoseconds.
pub mod Valid
use dmarcparser.Base.{
  ltb, if◌then◌else◌, is_empty, Result, ok, err, ◌>>=◌, ℕ, Bool, not, ◌&&◌, Option, none, some,
  List, [], ◌∷◌,
}
use dmarcparser.Base.Int.{ℤ, pos, negsuc}
use dmarcparser.Config.{ApiKey, KeysError, split_non_empty, parse_api_keys, parse_weekday}
use dmarcparser.Text.{Bytes, codes, beq, trim_space}
use dmarcparser.Unicode.{Casing}

pub data LoadError : Type 0 where
  no_database no_password bad_hour bad_day : LoadError
  bad_value unreadable_file : Bytes → LoadError
  bad_keys : KeysError → LoadError

-- What `Load` reads.
pub record Host (Float : Type 0) : Type 0 where
  pub lookup_env : Bytes → Option Bytes
  pub read_file : Bytes → Option Bytes
  pub parse_duration : Bytes → Option ℤ
  pub parse_int : Bytes → Option ℤ
  pub parse_float : Bytes → Option Float
  pub casing : Casing

-- the fields read by `strconv` and `time`, in the order in which they are read
pub record Numbers (Float : Type 0) : Type 0 where
  pub poll_interval : ℤ
  pub alert_silence : ℤ
  pub raw_xml_retention : ℤ
  pub mail_retention : ℤ
  pub max_body_bytes : ℤ
  pub rate_limit_rps : Float
  pub anomaly_sigma : Float
  pub alert_failed_spike : ℤ
  pub anomaly_min_fails : ℤ
  pub new_sender_min_msgs : ℤ
  pub enrich_workers : ℤ

pub record Config (Float : Type 0) : Type 0 where
  pub database_url : Bytes
  pub imap_addr : Bytes
  pub imap_user : Bytes
  pub imap_password : Bytes
  pub imap_tls_skip_verify : Bool
  pub numbers : Numbers Float
  pub folder_processed : Bytes
  pub folder_ignored : Bytes
  pub folder_failed : Bytes
  pub api_addr : Bytes
  pub api_keys : List ApiKey
  pub webhook_urls : List Bytes
  pub webhook_secret : Bytes
  pub alert_url : Bytes
  pub ruf_redact : Bool
  pub digest_enabled : Bool
  pub digest_smtp_addr : Bytes
  pub digest_smtp_user : Bytes
  pub digest_from : Bytes
  pub digest_day : ℕ
  pub digest_hour : ℕ
  pub viewer_url : Bytes
  pub store_raw_xml : Bool

abbrev pub value_or : Bytes → Option Bytes → Bytes
value_or def none = def
value_or def (some v) = v

abbrev pub or_fail {ℓ} : {A : Type ℓ} → LoadError → Option A → Result LoadError A
or_fail e none = err e
or_fail e (some a) = ok a

abbrev pub key_error {ℓ} : {A : Type ℓ} → Result KeysError A → Result LoadError A
key_error (ok a) = ok a
key_error (err e) = err (bad_keys e)

module _ {Float : Type 0} (host : Host Float) where
  -- `os.Getenv` is `get` with the empty string
  unfoldable pub get : Bytes → Bytes → Bytes
  get key def = value_or def (host.lookup_env key)

  unfoldable pub get_duration : Bytes → Bytes → Result LoadError ℤ
  unfolding get
  get_duration key def = or_fail (bad_value key) (host.parse_duration (get key def))

  unfoldable pub get_int : Bytes → Bytes → Result LoadError ℤ
  unfolding get
  get_int key def = or_fail (bad_value key) (host.parse_int (get key def))

  unfoldable pub get_float : Bytes → Bytes → Result LoadError Float
  unfolding get
  get_float key def = or_fail (bad_value key) (host.parse_float (get key def))

  unfoldable pub load_numbers : Result LoadError (Numbers Float)
  unfolding get_duration get_int get_float
  load_numbers = do
    poll ← get_duration (codes "PARSER_POLL_INTERVAL") (codes "5m")
    quiet ← get_duration (codes "PARSER_ALERT_SILENCE") (codes "36h")
    raw ← get_duration (codes "PARSER_RAW_XML_RETENTION") (codes "2160h")
    kept_mail ← get_duration (codes "PARSER_MAIL_RETENTION") (codes "720h")
    body ← get_int (codes "PARSER_MAX_BODY_BYTES") (codes "67108864")
    rps ← get_float (codes "PARSER_RATE_LIMIT_RPS") (codes "10")
    sigma ← get_float (codes "PARSER_ANOMALY_SIGMA") (codes "3")
    spike ← get_int (codes "PARSER_ALERT_FAILED_SPIKE") (codes "10")
    fails ← get_int (codes "PARSER_ANOMALY_MIN_FAILS") (codes "50")
    msgs ← get_int (codes "PARSER_NEWSENDER_MIN_MSGS") (codes "5")
    workers ← get_int (codes "PARSER_ENRICH_WORKERS") (codes "4")
    ok (record {
      poll_interval = poll;
      alert_silence = quiet;
      raw_xml_retention = raw;
      mail_retention = kept_mail;
      max_body_bytes = body;
      rate_limit_rps = rps;
      anomaly_sigma = sigma;
      alert_failed_spike = spike;
      anomaly_min_fails = fails;
      new_sender_min_msgs = msgs;
      enrich_workers = workers;
    })

  -- the hour of the digest
  unfoldable pub check_hour : Option ℤ → Result LoadError ℕ
  check_hour none = err bad_hour
  check_hour (some (negsuc n)) = err bad_hour
  check_hour (some (pos n)) = if ltb 23 n then err bad_hour else ok n

  -- the file with the password, read only if the variable is empty
  unfoldable pub password_from : Bytes → Bytes → Bytes → Option Bytes → Result LoadError Bytes
  password_from addr password file content =
      if is_empty password && not (is_empty file)
      then (elim content [
        | some b ↦ ok (trim_space b)
        | none ↦ if is_empty addr then ok password else err (unreadable_file file)
      ])
      else ok password

  unfoldable pub check_password : Bytes → Bytes → Result LoadError Bytes
  check_password addr password =
      if not (is_empty addr) && is_empty password then err no_password else ok password

  unfoldable pub read_password : Bytes → Result LoadError Bytes
  unfolding get password_from
  read_password addr =
      let file = get (codes "PARSER_IMAP_PASSWORD_FILE") (codes "/run/secrets/mailbox-password") in
      password_from addr (get (codes "PARSER_IMAP_PASSWORD") []) file (host.read_file file)

  unfoldable pub load_password : Bytes → Result LoadError Bytes
  unfolding read_password check_password
  load_password addr = do password ← read_password addr; check_password addr password

  unfoldable pub load_urls : List Bytes → List Bytes
  unfolding get split_non_empty
  load_urls [] = split_non_empty (get (codes "PARSER_WEBHOOK_URL") [])
  load_urls (u ∷ us) = u ∷ us

  unfoldable pub is_true : Bytes → Bytes → Bool
  unfolding get
  is_true key def = beq (get key def) (codes "true")

  abbrev pub config_of : Numbers Float → ℕ → ℕ → Bytes → List ApiKey → Config Float
  config_of numbers hour day password keys =
      let user = get (codes "PARSER_IMAP_USER") (codes "dmarc@example.org") in
      record {
        database_url = get (codes "PARSER_DATABASE_URL") [];
        imap_addr = get (codes "PARSER_IMAP_ADDR") (codes "mailserver:993");
        imap_user = user;
        imap_password = password;
        imap_tls_skip_verify = is_true (codes "PARSER_IMAP_TLS_SKIP_VERIFY") (codes "false");
        numbers = numbers;
        folder_processed = get (codes "PARSER_FOLDER_PROCESSED") (codes "Processed");
        folder_ignored = get (codes "PARSER_FOLDER_IGNORED") (codes "Ignored");
        folder_failed = get (codes "PARSER_FOLDER_FAILED") (codes "Failed");
        api_addr = get (codes "PARSER_API_ADDR") (codes ":8080");
        api_keys = keys;
        webhook_urls = load_urls (split_non_empty (get (codes "PARSER_WEBHOOK_URLS") []));
        webhook_secret = get (codes "PARSER_WEBHOOK_SECRET") [];
        alert_url = get (codes "PARSER_ALERT_URL") [];
        ruf_redact = is_true (codes "PARSER_RUF_REDACT") (codes "true");
        digest_enabled = is_true (codes "PARSER_DIGEST_ENABLED") (codes "false");
        digest_smtp_addr = get (codes "PARSER_DIGEST_SMTP_ADDR") (codes "mailserver:587");
        digest_smtp_user = get (codes "PARSER_DIGEST_SMTP_USER") user;
        digest_from = get (codes "PARSER_DIGEST_FROM") user;
        digest_day = day;
        digest_hour = hour;
        viewer_url = get (codes "PARSER_VIEWER_URL") [];
        store_raw_xml = is_true (codes "PARSER_STORE_RAW_XML") (codes "true");
      }

  unfoldable pub load_hour : Result LoadError ℕ
  unfolding get check_hour
  load_hour = check_hour (host.parse_int (get (codes "PARSER_DIGEST_HOUR") (codes "7")))

  unfoldable pub load_day : Result LoadError ℕ
  unfolding get
  load_day =
      or_fail bad_day (parse_weekday host.casing (get (codes "PARSER_DIGEST_DAY") (codes "Monday")))

  unfoldable pub load_keys : Result LoadError (List ApiKey)
  unfolding get
  load_keys = key_error (parse_api_keys (get (codes "PARSER_API_KEYS") []))

  -- behind the check of the database's URL
  unfoldable pub load_rest : Result LoadError (Config Float)
  unfolding load_numbers load_hour load_day load_password load_keys load_urls is_true
  load_rest = do
    numbers ← load_numbers
    hour ← load_hour
    day ← load_day
    password ← load_password (get (codes "PARSER_IMAP_ADDR") (codes "mailserver:993"))
    keys ← load_keys
    ok (config_of numbers hour day password keys)

  -- `Load`
  unfoldable pub load : Result LoadError (Config Float)
  unfolding load_rest
  load = if is_empty (get (codes "PARSER_DATABASE_URL") []) then err no_database else load_rest
