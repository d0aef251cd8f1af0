-- ===== src/Config/Loads.antt =====
-- src/config.rs: what holds of a configuration that was accepted, and what its clients rely on.
use ct_firehose_filter.Prelude.{
  ℕ, ◌*◌, ◌≤◌, ◌≡◌, subst, refl, Bool, true, false, ◌&&◌, ◌||◌, ◌==◌, Option, none, some, List, [],
  is_empty, ltb, if◌then◌else◌, Str, codes, trim, arith,
}
use ct_firehose_filter.Prelude.Numbers.{u64_max, parse_unsigned, parse_unsigned_bound}
use ct_firehose_filter.Event.{MatchEvent}
use ct_firehose_filter.Pipeline.{reconnect_policy, batch_config}
use ct_firehose_filter.Batch.Delivery.{IsUsable}
use ct_firehose_filter.Ingress.{Round, IngressState, run_ingress}
use ct_firehose_filter.Ingress.Backoff.{Pauses, run_ingress-Pauses}
use ct_firehose_filter.Config.{
  Env, Outcome, err, ok, ◌>>=◌, is_prod, Config, validate, batch_limit, from_env, parse_u64_env,
  parse_usize_env, number_or_err, parse_or, reload_of_secs, egress_of, min_len_default, or_else,
}

-- What `validate` asks for.
pub record IsValid (c : Config) : Type 0 where
  pub url : is_empty (trim c.certstream_url) ≡ false
  pub db : is_prod c.egress ≡ true → is_empty c.novelty_db ≡ false
  pub alerts : is_prod c.egress ≡ true → is_empty c.novelty_alerts ≡ false
  pub capacity : 1 ≤ c.pipeline.channel_capacity
  pub messages : 1 ≤ c.pipeline.batch_max_messages
  pub at_most : c.pipeline.batch_max_messages ≤ batch_limit
  pub interval : 1 ≤ c.pipeline.flush_interval
  pub delay : 1 ≤ c.pipeline.reconnect_delay
  pub delays : c.pipeline.reconnect_delay ≤ c.pipeline.reconnect_max_delay
  pub progress : 1 ≤ c.progress_interval

passes :
    {A : Type 0} {a : A} (test : Bool) (e : Str) (rest : Outcome A)
    → (if test then err e else rest) ≡ ok a
    → test ≡ false
passes true e rest h = absurd cc
passes false e rest h = refl

goes_on :
    {A : Type 0} {a : A} (test : Bool) (e : Str) (rest : Outcome A)
    → (if test then err e else rest) ≡ ok a
    → rest ≡ ok a
goes_on true e rest h = absurd cc
goes_on false e rest h = h

validate_sound : (c d : Config) → validate c ≡ ok d → (c ≡ d) × IsValid c
unfolding validate
validate_sound c d h =
    let db = is_prod c.egress && is_empty c.novelty_db in
    let alerts = is_prod c.egress && is_empty c.novelty_alerts in
    let none_or_more =
      (c.pipeline.batch_max_messages == 0) || ltb batch_limit c.pipeline.batch_max_messages in
    let k1 = goes_on (is_empty (trim c.certstream_url)) _ _ h in
    let k2 = goes_on db _ _ k1 in
    let k3 = goes_on alerts _ _ k2 in
    let k4 = goes_on (c.pipeline.channel_capacity == 0) _ _ k3 in
    let k5 = goes_on none_or_more _ _ k4 in
    let k6 = goes_on (c.pipeline.flush_interval == 0) _ _ k5 in
    let k7 = goes_on (c.pipeline.reconnect_delay == 0) _ _ k6 in
    let k8 = goes_on (ltb c.pipeline.reconnect_max_delay c.pipeline.reconnect_delay) _ _ k7 in
    let k9 = goes_on (c.progress_interval == 0) _ _ k8 in
    (
      cc,
      record {
        url = passes (is_empty (trim c.certstream_url)) _ _ h;
        db = λ p. let f = passes db _ _ k1 in ground arith;
        alerts = λ p. let f = passes alerts _ _ k2 in ground arith;
        capacity = ground arith;
        messages = ground arith;
        at_most = ground arith;
        interval = ground arith;
        delay = ground arith;
        delays = ground arith;
        progress = ground arith;
      },
    )

bind_ok :
    {A B : Type 0} (m : Outcome A) (f : A → Outcome B) (b : B)
    → (m >>= f) ≡ ok b
    → (a : A) × (m ≡ ok a) × (f a ≡ ok b)
bind_ok (err e) f b h = absurd cc
bind_ok (ok a) f b h = (a, refl, h)

number_or_err_bound : (key : Str) (o : Option ℕ) (n : ℕ) → number_or_err key o ≡ ok n → o ≡ some n
number_or_err_bound key none n h = absurd cc
number_or_err_bound key (some k) n h = cc

parse_or_bound :
    (key : Str) (raw : Option Str) (default n : ℕ)
    → default ≤ u64_max
    → parse_or key raw default ≡ ok n
    → n ≤ u64_max
parse_or_bound key none default n d h = let e : default ≡ n = cc in omega (arith, d, e)
parse_or_bound key (some raw) default n d h =
    parse_unsigned_bound u64_max raw n (number_or_err_bound key (parse_unsigned u64_max raw) n h)

reload_bound : (n k : ℕ) → reload_of_secs n ≡ some k → 1000 ≤ k
reload_bound n k h = ground arith

-- The variable of one name.
abbrev read_at : Env → Str → ℕ → Outcome ℕ
read_at env key default = parse_or key (env key) default

-- What a loaded configuration keeps to.
pub record IsLoaded (c : Config) : Type 0 where
  pub valid : IsValid c
  pub bytes : c.pipeline.batch_max_bytes ≡ 256 * 1024
  pub longest : c.pipeline.reconnect_max_delay ≤ u64_max
  pub reload : (n : ℕ) → c.watchlist_reload ≡ some n → 1000 ≤ n

-- Whatever the environment, a configuration that is loaded is valid: each limit is within its
-- bounds, and the paths of the product are not empty. A reload waits a second at least.
pub from_env_sound : (env : Env) (c : Config) → from_env env ≡ ok c → IsLoaded c
unfolding from_env parse_u64_env parse_usize_env
from_env_sound env c h =
    let (egress, _, h1) = bind_ok (egress_of (env (codes "EGRESS"))) _ c h in
    let (capacity, _, h2) = bind_ok (read_at env (codes "CHANNEL_CAPACITY") 1024) _ c h1 in
    let (messages, _, h3) = bind_ok (read_at env (codes "BATCH_MAX_MESSAGES") batch_limit) _ c h2 in
    let (flush, _, h4) = bind_ok (read_at env (codes "FLUSH_INTERVAL_SECS") 5) _ c h3 in
    let (delay, _, h5) = bind_ok (read_at env (codes "RECONNECT_DELAY_MS") 2000) _ c h4 in
    let (longest, read, h6) = bind_ok (read_at env (codes "RECONNECT_MAX_DELAY_MS") 60000) _ c h5 in
    let (progress, _, h7) = bind_ok (read_at env (codes "PROGRESS_INTERVAL_SECS") 30) _ c h6 in
    let (min_len, _, h8) =
      bind_ok (read_at env (codes "WATCHLIST_MIN_LEN") (min_len_default egress)) _ c h7 in
    let (reload, _, h9) =
      bind_ok
        (parse_or (codes "WATCHLIST_RELOAD_SECS")
          (or_else (env (codes "WATCHLIST_RELOAD_SECS")) (env (codes "KEYWORD_RELOAD_SECS"))) 0)
        _ c h8 in
    let (same, valid) = validate_sound _ c h9 in
    subst IsLoaded same (record {
      valid = valid;
      bytes = refl;
      longest = parse_or_bound _ _ 60000 longest (omega arith) read;
      reload = λ n e. reload_bound reload n e;
    })

-- The state in which the program starts to connect.
abbrev pub first_round : Config → IngressState
first_round c = record {
  delay = (reconnect_policy c.pipeline).initial;
  pauses = [];
  metrics = none;
}

-- Whatever the environment, a configuration that is loaded is one that its clients can run with:
-- the batcher's limits leave room for an event, and the client's pauses, however often the
-- connection ends, lie between half of a delay and the delay, which doubles up to its bound.
pub from_env-Runs :
    (env : Env) (c : Config) (serialized_len : MatchEvent → Option ℕ) (rounds : List Round)
    → from_env env ≡ ok c
    → IsUsable serialized_len (batch_config c.pipeline)
      × Pauses c.pipeline.reconnect_max_delay
          (first_round c)
          (run_ingress (reconnect_policy c.pipeline) rounds (first_round c))
from_env-Runs env c serialized_len rounds h =
    let l = from_env_sound env c h in
    let delay = l.valid.delay in
    let delays = l.valid.delays in
    (
      record { bytes = omega (arith, l.bytes); messages = l.valid.messages },
      run_ingress-Pauses (reconnect_policy c.pipeline) rounds (first_round c)
          (omega (arith, delay, delays)) (omega (arith, l.longest)) delay,
    )
