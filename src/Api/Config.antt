-- ===== src/Api/Config.antt =====
-- `Settings` of apps/sample-fastapi/config.py: the environment it is read from, and the validation.
-- Texts are code points; `none` is the `ValueError` with which the process does not start.
pub mod Accepted
use practical_project.Base.{
  ℕ, Bool, true, false, not, ◌&&◌, ◌||◌, List, [], ◌∷◌, map, length, Option, none, some, leb,
  String, if◌then◌else◌,
}
use practical_project.Base.Int.{ℤ, pos, sub_ℕ, leb_ℤ, ltb_ℤ}
use practical_project.Base.Classes.{nat_eq, ◌==◌}
use practical_project.Base.Equality.{list_beq, list_eq}
use practical_project.Base.Raises.{◌>>=◌}
use practical_project.Float.{Floats, lit}
use practical_project.Float.Literal.{
  codes, is_empty, is_digit, lower, strip, strip_left, drop_underscores, span_digits, sign, value,
  value_from, float_of,
}

pub record Settings (F : Type 0) : Type 0 where
  pub redis_url : Option (List ℕ)
  pub redis_host : List ℕ
  pub redis_port : ℤ
  pub redis_db : ℤ
  pub redis_password : Option (List ℕ)
  pub redis_queue_key : List ℕ
  pub redis_ssl : Bool
  pub redis_ssl_cert_reqs : List ℕ
  pub redis_connect_timeout : F
  pub redis_socket_timeout : F
  pub redis_health_check_interval : ℤ
  pub redis_retry_attempts : ℤ
  pub queue_max_retries : ℤ
  pub queue_visibility_timeout_seconds : F
  pub queue_recovery_interval_seconds : F
  pub queue_completed_ttl_seconds : ℤ
  pub worker_processing_seconds : F
  pub worker_metrics_port : ℤ
  pub worker_job_timeout_seconds : F
  pub load_test_token : Option (List ℕ)

-- `os.getenv`
abbrev pub Environment : Type 0
Environment = String → Option (List ℕ)

abbrev pub getenv : Environment → String → List ℕ → List ℕ
getenv env name default = elim (env name) [ none ↦ default | some v ↦ v ]

-- `os.getenv(name) or None`
abbrev pub getenv_or_none : Environment → String → Option (List ℕ)
getenv_or_none env name = elim (env name) [
  | none ↦ none
  | some v ↦ if is_empty v then none else some v
]

-- What Python's library knows of Unicode and of host names: `to_ascii` takes a decimal digit of any
-- script to the ASCII digit of its value, and any other code point to itself; `is_host` is whether
-- `urlsplit` accepts a network location whose brackets match, by the address in the brackets and by
-- the normal form of the rest; `is_convertible` is whether `int` takes a text of so many digits, which
-- is at most 4300 unless the interpreter is told otherwise.
pub record PythonText : Type 0 where
  pub to_ascii : ℕ → ℕ
  pub is_host : List ℕ → Bool
  pub is_convertible : ℕ → Bool

-- `int(text)`: white space around a sign and digits.
abbrev pub whole_number : PythonText → Bool → List ℕ × List ℕ → Option ℤ
whole_number py negative ([], rest) = none
whole_number py negative (d ∷ ds, c ∷ rest) = none
whole_number py negative (d ∷ ds, []) =
    if py.is_convertible (length (d ∷ ds))
    then some (if negative then sub_ℕ 0 (value (d ∷ ds)) else pos (value (d ∷ ds)))
    else none

unfoldable pub int_of : PythonText → List ℕ → Option ℤ
unfolding strip drop_underscores sign span_digits value_from
int_of py text = do
  digits ← drop_underscores false (strip (map py.to_ascii text))
  let (negative, body) = sign digits
  whole_number py negative (span_digits body)

abbrev pub is_one_of : List (List ℕ) → List ℕ → Bool
is_one_of [] s = false
is_one_of (word ∷ words) s = list_beq s word || is_one_of words s

-- The value that is set, as a bool.
abbrev pub bool_of : List ℕ → Option Bool
bool_of s =
    if is_one_of (codes "1" ∷ codes "true" ∷ codes "yes" ∷ codes "on" ∷ []) s
    then some true
    else if is_one_of (codes "0" ∷ codes "false" ∷ codes "no" ∷ codes "off" ∷ []) s
    then some false
    else none

-- `_env_bool`
unfoldable pub env_bool : Environment → String → Bool → Option Bool
unfolding strip
env_bool env name default = elim (env name) [
  | none ↦ some default
  | some v ↦ bool_of (map lower (strip v))
]

-- `urlsplit(url).scheme.lower()`. The scheme is what stands before the first colon, if it starts with
-- a letter and goes on with letters, digits, `+`, `-` and `.`; else it is empty. Leading white space is
-- dropped. Behind it, `//` starts the network location, which is checked.
abbrev pub is_letter : ℕ → Bool
is_letter c = leb 97 (lower c) && leb (lower c) 122

abbrev pub is_scheme_char : ℕ → Bool
is_scheme_char c = is_letter c || is_digit c || c == 43 || c == 45 || c == 46

-- The scheme, and what stands behind the colon.
unfoldable pub before_colon : List ℕ → Option (List ℕ × List ℕ)
before_colon [] = none
before_colon (c ∷ cs) =
    let rest = before_colon cs in
    if c == 58
    then some ([], cs)
    else if is_scheme_char c
    then elim rest [ none ↦ none | some (s, behind) ↦ some (lower c ∷ s, behind) ]
    else none

abbrev pub split_scheme : List ℕ → List ℕ × List ℕ
split_scheme [] = ([], [])
split_scheme (c ∷ cs) =
    if is_letter c
    then elim (before_colon (c ∷ cs)) [ none ↦ ([], c ∷ cs) | some (s, behind) ↦ (s, behind) ]
    else ([], c ∷ cs)

-- The network location ends at `/`, `?` or `#`.
unfoldable pub until_path : List ℕ → List ℕ
until_path [] = []
until_path (c ∷ cs) =
    let rest = until_path cs in if c == 47 || c == 63 || c == 35 then [] else c ∷ rest

abbrev pub netloc : List ℕ → List ℕ
netloc (c ∷ d ∷ rest) = if c == 47 && d == 47 then until_path rest else []
netloc _ = []

unfoldable pub has_code : ℕ → List ℕ → Bool
has_code k [] = false
has_code k (c ∷ cs) = c == k || has_code k cs

-- `urlsplit` raises a `ValueError` where one of the two brackets is missing.
abbrev pub is_netloc : PythonText → List ℕ → Bool
is_netloc py location =
    let opened = has_code 91 location in
    let closed = has_code 93 location in
    (if opened then closed else not closed) && (is_empty location || py.is_host location)

unfoldable pub drop_leading : List ℕ → List ℕ
drop_leading [] = []
drop_leading (c ∷ cs) = let rest = drop_leading cs in if leb c 32 then rest else c ∷ cs

-- Tabs and line breaks are removed wherever they stand.
unfoldable pub drop_breaks : List ℕ → List ℕ
drop_breaks [] = []
drop_breaks (c ∷ cs) =
    let rest = drop_breaks cs in if c == 9 || c == 10 || c == 13 then rest else c ∷ rest

unfoldable pub scheme : PythonText → List ℕ → Option (List ℕ)
unfolding before_colon until_path has_code drop_leading drop_breaks
scheme py url =
    let (name, behind) = split_scheme (drop_breaks (drop_leading url)) in
    if is_netloc py (netloc behind) then some name else none

abbrev pub is_scheme : Option (List ℕ) → Bool
is_scheme none = false
is_scheme (some name) = is_one_of (codes "redis" ∷ codes "rediss" ∷ []) name

-- False also where `urlsplit` raises, for that is a `ValueError` too.
abbrev pub is_redis_url : PythonText → Option (List ℕ) → Bool
is_redis_url py none = true
is_redis_url py (some url) = is_empty url || is_scheme (scheme py url)

-- A test whose failure raises.
abbrev pub require : Bool → Option (Unit {0})
require ok = if ok then some tt else none

module _ {F : Type 0} (fl : Floats F) (py : PythonText) where
  -- `x <= 0` of a float.
  abbrev pub not_positive : F → Bool
  not_positive x = fl.le x (lit fl 0 0)

  -- `__post_init__`
  unfoldable pub post_init : Settings F → Option (Unit {0})
  unfolding scheme
  post_init s = do
    _ ← require (is_redis_url py s.redis_url)
    _ ←
        require (
          is_one_of (codes "required" ∷ codes "optional" ∷ codes "none" ∷ []) s.redis_ssl_cert_reqs)
    _ ← require (not (leb_ℤ s.redis_port (pos 0) || ltb_ℤ (pos 65535) s.redis_port))
    _ ← require (not (not_positive s.redis_connect_timeout || not_positive s.redis_socket_timeout))
    _ ←
        require (
          not (ltb_ℤ s.redis_health_check_interval (pos 0) || ltb_ℤ s.redis_retry_attempts (pos 0)))
    _ ← require (not (ltb_ℤ s.queue_max_retries (pos 0)))
    require (
        not (
          not_positive s.queue_visibility_timeout_seconds
          || not_positive s.queue_recovery_interval_seconds
          || leb_ℤ s.queue_completed_ttl_seconds (pos 0)
          || not_positive s.worker_job_timeout_seconds))

  -- `float(text)`
  abbrev pub number : List ℕ → Option F
  number text = do n ← float_of (map py.to_ascii text); some (fl.of_numeral n)

  -- The fields' defaults, in their order.
  unfoldable pub read_settings : Environment → Option (Settings F)
  unfolding int_of env_bool float_of
  read_settings env = do
    redis_port ← int_of py (getenv env "REDIS_PORT" (codes "6379"))
    redis_db ← int_of py (getenv env "REDIS_DB" (codes "0"))
    redis_ssl ← env_bool env "REDIS_SSL" false
    connect_timeout ← number (getenv env "REDIS_CONNECT_TIMEOUT" (codes "5"))
    socket_timeout ← number (getenv env "REDIS_SOCKET_TIMEOUT" (codes "5"))
    health_check_interval ← int_of py (getenv env "REDIS_HEALTH_CHECK_INTERVAL" (codes "30"))
    retry_attempts ← int_of py (getenv env "REDIS_RETRY_ATTEMPTS" (codes "2"))
    max_retries ← int_of py (getenv env "QUEUE_MAX_RETRIES" (codes "3"))
    visibility_timeout ← number (getenv env "QUEUE_VISIBILITY_TIMEOUT_SECONDS" (codes "60"))
    recovery_interval ← number (getenv env "QUEUE_RECOVERY_INTERVAL_SECONDS" (codes "10"))
    completed_ttl ← int_of py (getenv env "QUEUE_COMPLETED_TTL_SECONDS" (codes "86400"))
    processing_seconds ← number (getenv env "WORKER_PROCESSING_SECONDS" (codes "0.25"))
    metrics_port ← int_of py (getenv env "WORKER_METRICS_PORT" (codes "9100"))
    job_timeout ← number (getenv env "WORKER_JOB_TIMEOUT_SECONDS" (codes "30"))
    some (record {
      redis_url = getenv_or_none env "REDIS_URL";
      redis_host = getenv env "REDIS_HOST" (codes "localhost");
      redis_port = redis_port;
      redis_db = redis_db;
      redis_password = getenv_or_none env "REDIS_PASSWORD";
      redis_queue_key =
          getenv env "REDIS_QUEUE_KEY" (getenv env "QUEUE_KEY" (codes "dev:sample:queue"));
      redis_ssl = redis_ssl;
      redis_ssl_cert_reqs = map lower (getenv env "REDIS_SSL_CERT_REQS" (codes "required"));
      redis_connect_timeout = connect_timeout;
      redis_socket_timeout = socket_timeout;
      redis_health_check_interval = health_check_interval;
      redis_retry_attempts = retry_attempts;
      queue_max_retries = max_retries;
      queue_visibility_timeout_seconds = visibility_timeout;
      queue_recovery_interval_seconds = recovery_interval;
      queue_completed_ttl_seconds = completed_ttl;
      worker_processing_seconds = processing_seconds;
      worker_metrics_port = metrics_port;
      worker_job_timeout_seconds = job_timeout;
      load_test_token = getenv_or_none env "LOAD_TEST_TOKEN";
    })

  -- `Settings()`
  unfoldable pub settings_of : Environment → Option (Settings F)
  unfolding read_settings post_init
  settings_of env = do s ← read_settings env; _ ← post_init s; some s

  -- `redis_tls_enabled`; `none` where `urlsplit` raises.
  unfoldable pub redis_tls_enabled : Settings F → Option Bool
  unfolding scheme
  redis_tls_enabled s = elim s.redis_url [
    | none ↦ some s.redis_ssl
    | some url ↦ if is_empty url then some s.redis_ssl else elim (scheme py url) [
      | none ↦ none
      | some name ↦ some (list_beq name (codes "rediss"))
    ]
  ]
