-- ===== src/Tests/Config.antt =====
-- src/config.rs with one variable set.
use ct_firehose_filter.Prelude.{
  ◌≡◌, refl, false, none, some, [], ◌∷◌, if◌then◌else◌, codes, str_eq, trim,
}
use ct_firehose_filter.Prelude.Numbers.{parse_unsigned, digits}
use ct_firehose_filter.Batch.Delivery.{IsUsable}
use ct_firehose_filter.Pipeline.{batch_config, reconnect_policy}
use ct_firehose_filter.Ingress.{reconnects, run_ingress}
use ct_firehose_filter.Ingress.Backoff.{Pauses}
use ct_firehose_filter.Config.{
  Env, Config, ok, novelty, from_env, parse_backend, parse_status_bind, optional_path_env,
  archive_from_env, validate,
}
use ct_firehose_filter.Config.Loads.{IsLoaded, first_round, from_env_sound, from_env-Runs}
use ct_firehose_filter.Tests.Batch.{forty}

abbrev environment : Env
environment key =
    if str_eq key (codes "EGRESS")
    then some (codes " Local")
    else if str_eq key (codes "BATCH_MAX_MESSAGES")
    then some (codes "7")
    else if str_eq key (codes "ARCHIVE_DIR")
    then some (codes "off")
    else none

abbrev pub loaded : Config
loaded = record {
  certstream_url = codes "wss://certstream.calidog.io/";
  watchlist_file = codes "keywords.txt";
  suppress_file = [];
  glue_file = [];
  egress = novelty;
  novelty_db = codes "/var/lib/ct-firehose-filter/novelty.db";
  novelty_alerts = codes "/var/lib/ct-firehose-filter/alerts.jsonl";
  novelty_require_db = false;
  pipeline = record {
    channel_capacity = 1024;
    batch_max_messages = 7;
    batch_max_bytes = 262144;
    flush_interval = 5000;
    reconnect_delay = 2000;
    reconnect_max_delay = 60000;
  };
  watchlist_reload = none;
  progress_interval = 30000;
  watchlist_min_len = 100000;
  status_bind = some (codes "0.0.0.0:9100");
  archive = none;
}

loads : from_env environment ≡ ok loaded
unfolding from_env parse_backend parse_unsigned validate digits parse_status_bind optional_path_env
    archive_from_env trim
loads = refl

from_env_sound_example : IsLoaded loaded
from_env_sound_example = from_env_sound environment loaded loads

from_env-Runs_example :
    IsUsable forty (batch_config loaded.pipeline)
    × Pauses 60000
        (first_round loaded)
        (run_ingress (reconnect_policy loaded.pipeline) (reconnects 7 ∷ []) (first_round loaded))
from_env-Runs_example = from_env-Runs environment loaded forty (reconnects 7 ∷ []) loads
