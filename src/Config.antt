-- ===== src/Config.antt =====
-- src/config.rs: the configuration that the environment gives. The environment is a parameter, and
-- a path is its text; durations are in milliseconds. Error messages are left out.
pub mod Loads
use ct_firehose_filter.Prelude.{
  ℕ, ◌+◌, ◌*◌, ◌^◌, Bool, true, false, not, ◌&&◌, ◌||◌, ◌==◌, Option, none, some, List, [], ◌∷◌,
  ◌++◌, is_empty, leb, ltb, max, if◌then◌else◌, Str, codes, str_eq, trim, to_ascii_lowercase,
}
use ct_firehose_filter.Prelude.Numbers.{u64_max, parse_unsigned}
use ct_firehose_filter.Pipeline.{PipelineConfig}

abbrev pub Env : Type 0
Env = Str → Option Str

-- The variable that a value is refused for.
abbrev pub ConfigError : Type 0
ConfigError = Str

pub data Outcome {ℓ} (A : Type ℓ) : Type ℓ where
  err : ConfigError → Outcome A
  ok : A → Outcome A

infixl 10 ◌>>=◌
abbrev pub ◌>>=◌ {ℓ} : {A B : Type ℓ} → Outcome A → (A → Outcome B) → Outcome B
err e >>= f = err e
ok a >>= f = f a

pub data EgressBackend : Type 0 where
  stdout novelty : EgressBackend

abbrev pub is_prod : EgressBackend → Bool
is_prod stdout = false
is_prod novelty = true

abbrev one_of : Str → List Str → Bool
one_of s [] = false
one_of s (w ∷ words) = str_eq s w || one_of s words

unfoldable pub parse_backend : Str → Outcome EgressBackend
unfolding trim
parse_backend raw =
    let s = to_ascii_lowercase (trim raw) in
    if str_eq s (codes "stdout") || str_eq s (codes "log")
    then ok stdout
    else if str_eq s (codes "novelty") || str_eq s (codes "local")
    then ok novelty
    else err (codes "EGRESS")

abbrev pub or_else : Option Str → Option Str → Option Str
or_else none other = other
or_else (some a) other = some a

abbrev pub or_default : Option Str → Str → Str
or_default none s = s
or_default (some a) s = a

-- `""` is the empty path.
unfoldable pub optional_path_env : Env → Str → Str
optional_path_env env key = trim (or_default (env key) [])

abbrev eq_ignore_ascii_case : Str → Str → Bool
eq_ignore_ascii_case a b = str_eq (to_ascii_lowercase a) (to_ascii_lowercase b)

-- Texts that switch a variable off, without the blanks around them.
abbrev pub is_off : Str → Bool
is_off s =
    is_empty s
    || eq_ignore_ascii_case s (codes "off")
    || eq_ignore_ascii_case s (codes "disabled")
    || eq_ignore_ascii_case s (codes "none")

abbrev status_bind_of : Option Str → Option Str
status_bind_of none = some (codes "0.0.0.0:9100")
status_bind_of (some raw) = let s = trim raw in if is_off s then none else some s

unfoldable pub parse_status_bind : Env → Option Str
parse_status_bind env = status_bind_of (env (codes "STATUS_BIND"))

abbrev pub number_or_err : Str → Option ℕ → Outcome ℕ
number_or_err key none = err key
number_or_err key (some n) = ok n

abbrev pub parse_or : Str → Option Str → ℕ → Outcome ℕ
parse_or key none default = ok default
parse_or key (some raw) default = number_or_err key (parse_unsigned u64_max raw)

-- `parse_usize_env`, and `parse_u64_env`, on a machine of 64 bits.
unfoldable pub parse_usize_env : Env → Str → ℕ → Outcome ℕ
parse_usize_env env key default = parse_or key (env key) default

unfoldable pub parse_u64_env : Env → Str → ℕ → Outcome ℕ
parse_u64_env env key default = parse_or key (env key) default

pub record ArchiveConfig : Type 0 where
  pub dir : Str
  pub max_bytes : ℕ
  pub disk_warn_bytes : ℕ
  pub max_total_bytes : ℕ
  pub max_all_domains : ℕ

abbrev archive_dir_of : Bool → Option Str → Option Str
archive_dir_of is_novelty none =
    if is_novelty then some (codes "/var/lib/ct-firehose-filter/archive") else none
archive_dir_of is_novelty (some raw) = let s = trim raw in if is_off s then none else some s

abbrev number_or : Option ℕ → ℕ → ℕ
number_or none n = n
number_or (some k) n = k

-- `.ok().and_then(|s| s.parse().ok()).unwrap_or(default)`
abbrev pub lenient : Option Str → ℕ → ℕ
lenient none default = default
lenient (some raw) default = number_or (parse_unsigned u64_max raw) default

abbrev archive_in : Env → Option Str → Option ArchiveConfig
archive_in env none = none
archive_in env (some dir) = some (record {
  dir = dir;
  max_bytes = max (lenient (env (codes "ARCHIVE_MAX_BYTES")) (256 * 1024 * 1024)) 1024;
  disk_warn_bytes = lenient (env (codes "ARCHIVE_DISK_WARN_BYTES")) (100 * 1024 * 1024 * 1024);
  max_total_bytes = lenient (env (codes "ARCHIVE_MAX_TOTAL_BYTES")) (50 * 1024 * 1024 * 1024);
  max_all_domains = lenient (env (codes "ARCHIVE_MAX_ALL_DOMAINS")) 32;
})

-- `ArchiveConfig::from_env_optional` of src/archive.rs.
unfoldable pub archive_from_env : Env → Bool → Option ArchiveConfig
archive_from_env env egress_is_novelty =
    archive_in env (archive_dir_of egress_is_novelty (env (codes "ARCHIVE_DIR")))

pub record Config : Type 0 where
  pub certstream_url : Str
  pub watchlist_file : Str
  pub suppress_file : Str
  pub glue_file : Str
  pub egress : EgressBackend
  pub novelty_db : Str
  pub novelty_alerts : Str
  pub novelty_require_db : Bool
  pub pipeline : PipelineConfig
  pub watchlist_reload : Option ℕ
  pub progress_interval : ℕ
  pub watchlist_min_len : ℕ
  pub status_bind : Option Str
  pub archive : Option ArchiveConfig

abbrev pub batch_limit : ℕ
batch_limit = 10

-- `Config::validate`, which returns what it accepts
unfoldable pub validate : Config → Outcome Config
validate c =
    if is_empty (trim c.certstream_url)
    then err (codes "CERTSTREAM_URL")
    else if is_prod c.egress && is_empty c.novelty_db
    then err (codes "NOVELTY_DB")
    else if is_prod c.egress && is_empty c.novelty_alerts
    then err (codes "NOVELTY_ALERTS")
    else if c.pipeline.channel_capacity == 0
    then err (codes "CHANNEL_CAPACITY")
    else if (c.pipeline.batch_max_messages == 0) || ltb batch_limit c.pipeline.batch_max_messages
    then err (codes "BATCH_MAX_MESSAGES")
    else if c.pipeline.flush_interval == 0
    then err (codes "FLUSH_INTERVAL_SECS")
    else if c.pipeline.reconnect_delay == 0
    then err (codes "RECONNECT_DELAY_MS")
    else if ltb c.pipeline.reconnect_max_delay c.pipeline.reconnect_delay
    then err (codes "RECONNECT_MAX_DELAY_MS")
    else if c.progress_interval == 0
    then err (codes "PROGRESS_INTERVAL_SECS")
    else ok c

abbrev pub egress_of : Option Str → Outcome EgressBackend
egress_of none = ok stdout
egress_of (some raw) = parse_backend raw

abbrev require_db_of : Option Str → Bool
require_db_of none = false
require_db_of (some raw) =
    let s = to_ascii_lowercase (trim raw) in
    not (
      is_empty s
      || str_eq s (codes "0")
      || str_eq s (codes "false")
      || str_eq s (codes "no")
      || str_eq s (codes "off"))

abbrev pub min_len_default : EgressBackend → ℕ
min_len_default e = if is_prod e then 100000 else 0

-- Zero seconds are no reload.
abbrev pub reload_of_secs : ℕ → Option ℕ
reload_of_secs n = if ltb 0 n then some (n * 1000) else none

unfoldable pub from_env : Env → Outcome Config
unfolding parse_usize_env parse_u64_env
from_env env = do
  egress ← egress_of (env (codes "EGRESS"))
  channel_capacity ← parse_usize_env env (codes "CHANNEL_CAPACITY") 1024
  batch_max_messages ← parse_usize_env env (codes "BATCH_MAX_MESSAGES") batch_limit
  flush_secs ← parse_u64_env env (codes "FLUSH_INTERVAL_SECS") 5
  reconnect_ms ← parse_u64_env env (codes "RECONNECT_DELAY_MS") 2000
  reconnect_max_ms ← parse_u64_env env (codes "RECONNECT_MAX_DELAY_MS") 60000
  progress_secs ← parse_u64_env env (codes "PROGRESS_INTERVAL_SECS") 30
  watchlist_min_len ←
      parse_or (codes "WATCHLIST_MIN_LEN") (env (codes "WATCHLIST_MIN_LEN"))
        (min_len_default egress)
  reload_secs ←
      parse_or (codes "WATCHLIST_RELOAD_SECS")
        (or_else (env (codes "WATCHLIST_RELOAD_SECS")) (env (codes "KEYWORD_RELOAD_SECS"))) 0
  validate (record {
    certstream_url =
        or_default (env (codes "CERTSTREAM_URL")) (codes "wss://certstream.calidog.io/");
    watchlist_file =
        or_default (or_else (env (codes "WATCHLIST_FILE")) (env (codes "KEYWORDS_FILE")))
          (codes "keywords.txt");
    suppress_file = optional_path_env env (codes "SUPPRESS_FILE");
    glue_file = optional_path_env env (codes "GLUE_FILE");
    egress = egress;
    novelty_db =
        or_default (env (codes "NOVELTY_DB")) (codes "/var/lib/ct-firehose-filter/novelty.db");
    novelty_alerts =
        or_default (env (codes "NOVELTY_ALERTS"))
          (codes "/var/lib/ct-firehose-filter/alerts.jsonl");
    novelty_require_db = require_db_of (env (codes "NOVELTY_REQUIRE_DB"));
    pipeline = record {
      channel_capacity = channel_capacity;
      batch_max_messages = batch_max_messages;
      batch_max_bytes = 256 * 1024;
      flush_interval = flush_secs * 1000;
      reconnect_delay = reconnect_ms;
      reconnect_max_delay = reconnect_max_ms;
    };
    watchlist_reload = reload_of_secs reload_secs;
    progress_interval = progress_secs * 1000;
    watchlist_min_len = watchlist_min_len;
    status_bind = parse_status_bind env;
    archive = archive_from_env env (is_prod egress);
  })
