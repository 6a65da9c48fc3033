-- ===== src/Api/Config/Accepted.antt =====
-- Which settings apps/sample-fastapi/config.py accepts.
use practical_project.Base.{
  inl, inr, Bool-cases, ℕ, ◌≡◌, ◌↔◌, ◌⊎◌, refl, sym, subst, ◌∙◌, Bool, true, false, not, ◌||◌, List,
  [], ◌∷◌, Option, none, some, arith,
}
use mathlib.Core.Option.{some-injective, none-ne-some}
use practical_project.Base.Int.{pos, leb_ℤ, ltb_ℤ, ◌≤ℤ◌}
use practical_project.Base.Classes.{nat_eq}
use practical_project.Base.Equality.{list_beq, list_beq_iff}
use practical_project.Base.Raises.{◌>>=◌}
use practical_project.Float.{Floats}
use practical_project.Float.Literal.{codes, is_empty}
use practical_project.Api.Config.{
  PythonText, is_scheme, Settings, Environment, is_one_of, scheme, is_redis_url, not_positive,
  require, post_init, read_settings, settings_of,
}

abbrev pub IsOneOf : List (List ℕ) → List ℕ → Type 0
IsOneOf [] s = ⊥
IsOneOf (word ∷ words) s = (s ≡ word) ⊎ IsOneOf words s

-- No URL, an empty one, or one that `urlsplit` reads and finds one of the two schemes in.
abbrev pub IsRedisUrl : PythonText → Option (List ℕ) → Type 0
IsRedisUrl py none = Unit
IsRedisUrl py (some url) =
    (is_empty url ≡ true)
    ⊎ ((name : List ℕ) × (scheme py url ≡ some name)
        × IsOneOf (codes "redis" ∷ codes "rediss" ∷ []) name)

is_one_of_iff : (words : List (List ℕ)) (s : List ℕ) → (is_one_of words s ≡ true) ↔ IsOneOf words s
is_one_of_iff [] s = ground arith
is_one_of_iff (word ∷ words) s =
    let same : (list_beq s word ≡ true) ↔ (s ≡ word) = list_beq_iff s word in
    ground (arith, same, is_one_of_iff words s)

is_scheme_iff :
    (o : Option (List ℕ))
    → (is_scheme o ≡ true)
      ↔ ((name : List ℕ) × (o ≡ some name) × IsOneOf (codes "redis" ∷ codes "rediss" ∷ []) name)
is_scheme_iff none = (λ h. cc h, λ h. elim (none-ne-some h.0 h.1) [ ])
is_scheme_iff (some name) = (
  λ h. (name, refl, (is_one_of_iff (codes "redis" ∷ codes "rediss" ∷ []) name).0 h),
  λ h. (is_one_of_iff (codes "redis" ∷ codes "rediss" ∷ []) name).1 (
      subst (IsOneOf (codes "redis" ∷ codes "rediss" ∷ [])) (sym (some-injective name h.0 h.1))
        h.2),
)

is_redis_url_iff :
    (py : PythonText) (url : Option (List ℕ)) → (is_redis_url py url ≡ true) ↔ IsRedisUrl py url
is_redis_url_iff py none = ground arith
is_redis_url_iff py (some url) = elim (Bool-cases (is_empty url)) [
  | inl empty ↦ (λ h. inl empty, λ h. rw empty refl)
  | inr set ↦ (
    λ h. inr ((is_scheme_iff (scheme py url)).0 (rw set at h)),
    λ h. elim h [
      | inl empty ↦ cc (empty, set)
      | inr found ↦ rw set ((is_scheme_iff (scheme py url)).1 found)
    ],
  )
]

-- All the tests of a chain hold.
chain :
    (a b c d e f g : Bool)
    → (do
      _ ← require a
      _ ← require b
      _ ← require c
      _ ← require d
      _ ← require e
      _ ← require f
      require g)
      ≡ some tt
    → (a ≡ true) × (b ≡ true) × (c ≡ true) × (d ≡ true) × (e ≡ true) × (f ≡ true) × (g ≡ true)
chain a b c d e f g h = ground arith

module _ {F : Type 0} (fl : Floats F) (py : PythonText) where
  -- A float of which `x <= 0` is false, as it is of NaN.
  abbrev pub IsPositive : F → Type 0
  IsPositive x = not_positive fl py x ≡ false

  pub record IsAcceptable (s : Settings F) : Type 0 where
    pub url_lem : IsRedisUrl py s.redis_url
    pub cert_reqs_lem :
        IsOneOf (codes "required" ∷ codes "optional" ∷ codes "none" ∷ []) s.redis_ssl_cert_reqs
    pub port_low : pos 1 ≤ℤ s.redis_port
    pub port_high : s.redis_port ≤ℤ pos 65535
    pub connect_lem : IsPositive s.redis_connect_timeout
    pub socket_lem : IsPositive s.redis_socket_timeout
    pub health_check_lem : pos 0 ≤ℤ s.redis_health_check_interval
    pub retry_attempts_lem : pos 0 ≤ℤ s.redis_retry_attempts
    pub max_retries_lem : pos 0 ≤ℤ s.queue_max_retries
    pub visibility_lem : IsPositive s.queue_visibility_timeout_seconds
    pub recovery_lem : IsPositive s.queue_recovery_interval_seconds
    pub completed_ttl_lem : pos 1 ≤ℤ s.queue_completed_ttl_seconds
    pub job_timeout_lem : IsPositive s.worker_job_timeout_seconds

  acceptable :
      (s : Settings F)
      → is_redis_url py s.redis_url ≡ true
      → is_one_of (codes "required" ∷ codes "optional" ∷ codes "none" ∷ []) s.redis_ssl_cert_reqs
        ≡ true
      → not (leb_ℤ s.redis_port (pos 0) || ltb_ℤ (pos 65535) s.redis_port) ≡ true
      → not
          (not_positive fl py s.redis_connect_timeout || not_positive fl py s.redis_socket_timeout)
        ≡ true
      → not (ltb_ℤ s.redis_health_check_interval (pos 0) || ltb_ℤ s.redis_retry_attempts (pos 0))
        ≡ true
      → not (ltb_ℤ s.queue_max_retries (pos 0)) ≡ true
      → not (
          not_positive fl py s.queue_visibility_timeout_seconds
          || not_positive fl py s.queue_recovery_interval_seconds
          || leb_ℤ s.queue_completed_ttl_seconds (pos 0)
          || not_positive fl py s.worker_job_timeout_seconds)
        ≡ true
      → IsAcceptable s
  acceptable s url cert port timeouts checks retries rest = record {
    url_lem = (is_redis_url_iff py s.redis_url).0 url;
    cert_reqs_lem =
        (is_one_of_iff (codes "required" ∷ codes "optional" ∷ codes "none" ∷ [])
            s.redis_ssl_cert_reqs).0
          cert;
    port_low = ground (arith, port);
    port_high = ground (arith, port);
    connect_lem = ground (arith, timeouts);
    socket_lem = ground (arith, timeouts);
    health_check_lem = ground (arith, checks);
    retry_attempts_lem = ground (arith, checks);
    max_retries_lem = ground (arith, retries);
    visibility_lem = ground (arith, rest);
    recovery_lem = ground (arith, rest);
    completed_ttl_lem = ground (arith, rest);
    job_timeout_lem = ground (arith, rest);
  }

  post_init-IsAcceptable : (s : Settings F) → post_init fl py s ≡ some tt → IsAcceptable s
  unfolding post_init
  post_init-IsAcceptable s h =
      let (url, cert, port, timeouts, checks, retries, rest) = chain _ _ _ _ _ _ _ h in
      acceptable s url cert port timeouts checks retries rest

  IsAcceptable-post_init : (s : Settings F) → IsAcceptable s → post_init fl py s ≡ some tt
  unfolding post_init
  IsAcceptable-post_init s a =
      let url : is_redis_url py s.redis_url ≡ true =
        (is_redis_url_iff py s.redis_url).1 a.url_lem in
      let cert : is_one_of (codes "required" ∷ codes "optional" ∷ codes "none" ∷ [])
            s.redis_ssl_cert_reqs
          ≡ true =
        (is_one_of_iff (codes "required" ∷ codes "optional" ∷ codes "none" ∷ [])
            s.redis_ssl_cert_reqs).1
          a.cert_reqs_lem in
      let low : leb_ℤ s.redis_port (pos 0) ≡ false = ground (arith, a.port_low) in
      let high : ltb_ℤ (pos 65535) s.redis_port ≡ false = ground (arith, a.port_high) in
      let checks : ltb_ℤ s.redis_health_check_interval (pos 0) ≡ false =
        ground (arith, a.health_check_lem) in
      let attempts : ltb_ℤ s.redis_retry_attempts (pos 0) ≡ false =
        ground (arith, a.retry_attempts_lem) in
      let retries : ltb_ℤ s.queue_max_retries (pos 0) ≡ false = ground (arith, a.max_retries_lem) in
      let ttl : leb_ℤ s.queue_completed_ttl_seconds (pos 0) ≡ false =
        ground (arith, a.completed_ttl_lem) in
      rw (
        url, cert, low, high, a.connect_lem, a.socket_lem, checks, attempts, retries,
        a.visibility_lem, a.recovery_lem, ttl, a.job_timeout_lem,
      )

  started_settings :
      (p : Option (Unit {0})) (t s : Settings F)
      → post_init fl py t ≡ p
      → ((p >>= λ _. some t) ≡ some s) ↔ ((some t ≡ some s) × IsAcceptable s)
  started_settings none t s e = (
    λ h. elim (none-ne-some s h) [ ],
    λ h.
        elim (none-ne-some tt (
          sym e
          ∙ IsAcceptable-post_init t (subst IsAcceptable (sym (some-injective t s h.0)) h.1))) [ ],
  )
  started_settings (some u) t s e =
      (λ h. (h, subst IsAcceptable (some-injective t s h) (post_init-IsAcceptable t e)), λ h. h.0)

  settled :
      (o : Option (Settings F)) (s : Settings F)
      → ((do t ← o; _ ← post_init fl py t; some t) ≡ some s) ↔ ((o ≡ some s) × IsAcceptable s)
  settled none s = (λ h. elim (none-ne-some s h) [ ], λ h. elim (none-ne-some s h.0) [ ])
  settled (some t) s = started_settings (post_init fl py t) t s refl

  -- The settings with which a process starts are exactly those that the environment gives, if it
  -- gives any, and that are in bounds: a Redis URL, a certificate rule of the three, a port between
  -- 1 and 65535, retries and intervals that are not negative, and timeouts that are not at or below
  -- zero.
  pub settings_of_iff :
      (env : Environment) (s : Settings F)
      → (settings_of fl py env ≡ some s) ↔ ((read_settings fl py env ≡ some s) × IsAcceptable s)
  unfolding settings_of
  settings_of_iff env s = settled (read_settings fl py env) s
