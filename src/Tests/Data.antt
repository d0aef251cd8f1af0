-- ===== src/Tests/Data.antt =====
-- The inputs of the tests.
use ct_firehose_filter.Prelude.{
  refl, true, Option, none, some, List, [], ◌∷◌, Str, codes, split, join,
}
use ct_firehose_filter.Prelude.Int.{pos}
use ct_firehose_filter.Event.{MatchEvent, FrameMeta}
use ct_firehose_filter.Watchlist.Names.{Psl}
use ct_firehose_filter.Novelty.Sql.{Db, NoveltyStore, Ending}
use ct_firehose_filter.Novelty.Store.{Clock}

-- A suffix list with the one suffix `com`.
abbrev last_two : List Str → Option Str
last_two [] = none
last_two (a ∷ []) = none
last_two (a ∷ b ∷ []) = some (join (codes ".") (a ∷ b ∷ []))
last_two (a ∷ b ∷ c ∷ rest) = last_two (b ∷ c ∷ rest)

unfoldable pub com_psl : Psl
unfolding split join
com_psl name = some (record {
  suffix = codes "com";
  has_known_suffix = true;
  is_icann = true;
  root = last_two (split b'.' name);
})

abbrev pub meta : FrameMeta
meta = record { seen = none; source = none; fingerprint = some (codes "f0") }

-- A clock that formats every instant alike.
abbrev pub clock : Clock
clock = record {
  chrono = record {
    format_utc = λ n. some (codes "then");
    epoch = codes "then";
    format_epoch = refl;
  };
  event_now = pos 100;
  ingest_now = pos 101;
}

abbrev pub alpha : Str
alpha = codes "a.com"

abbrev pub beta : Str
beta = codes "b.com"

abbrev pub pair_event : MatchEvent
pair_event = record {
  matched_domains = codes "x.a.com" ∷ codes "y.b.com" ∷ [];
  matched_keywords = codes "B.com" ∷ alpha ∷ [];
  seen = none;
  source = none;
  fingerprint = some (codes "f0");
  san_count = 2;
}

abbrev pub same_event : MatchEvent
same_event = record pair_event { matched_keywords = alpha ∷ codes "b.COM" ∷ alpha ∷ [] }

abbrev pub empty_db : Db
empty_db = record {
  coalitions = [];
  hosts = [];
  brand_degree = [];
  brand_partners = [];
  meta = [];
  multi_brand_certs = [];
}

abbrev pub empty_store : NoveltyStore
empty_store = record { db = empty_db; saved = none; endings = []; closings = []; nudges = 0 }

-- A store on which the fifth statement fails.
abbrev pub failing_store : NoveltyStore
failing_store = record empty_store {
  endings = Ending.applied ∷ Ending.applied ∷ Ending.applied ∷ Ending.applied ∷ Ending.failed ∷ [];
}

-- A store on which the first `COMMIT` fails.
abbrev pub refusing_store : NoveltyStore
refusing_store = record empty_store { closings = Ending.failed ∷ [] }
