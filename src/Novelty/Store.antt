-- ===== src/Novelty/Store.antt =====
-- src/novelty.rs: the operations of `NoveltyStore`.
use ct_firehose_filter.Prelude.{
  ℕ, zero, suc, ◌+◌, Bool, true, false, not, ◌&&◌, ◌||◌, Option, none, some, List, [], ◌∷◌, ◌++◌,
  map, filter, length, is_empty, leb, ltb, ◌==◌, max, if◌then◌else◌, is_some, Str, codes, str_eq,
  any, join, sort, trim, to_ascii_lowercase,
}
use ct_firehose_filter.Prelude.Int.{ℤ, pos, pos_part, i64_max, leb_ℤ, saturating_sub, saturate_u32}
use ct_firehose_filter.Event.{MatchEvent}
use ct_firehose_filter.Dates.{Chrono, unix_to_instant}
use ct_firehose_filter.Novelty.Table.{lookup, upsert, update, insert_or_ignore}
use ct_firehose_filter.Novelty.Sql.{
  Degree, Cert, Db, ok, Sql, ◌>>=◌, ◌>>◌, pure, statement, query, in_transaction,
}

abbrev pub field_sep : Str
field_sep = 0x1f ∷ []

abbrev pub join_fields : List Str → Str
join_fields parts = join field_sep parts

abbrev pub join_csv : List Str → Str
join_csv parts = join (codes ",") parts

-- `Vec::dedup`
unfoldable pub dedup : List Str → List Str
dedup [] = []
dedup (x ∷ []) = x ∷ []
dedup (x ∷ y ∷ rest) = let kept = dedup (y ∷ rest) in if str_eq x y then kept else x ∷ kept

unfoldable pub sorted_csv : List Str → Str
unfolding dedup sort join trim
sorted_csv parts =
    join_csv
      (dedup (sort (filter (λ s. not (is_empty s)) (map (λ s. to_ascii_lowercase (trim s)) parts))))

abbrev pub calibrate_started_at : Str
calibrate_started_at = codes "calibrate_started_at"

abbrev pub multi_brand_events_key : Str
multi_brand_events_key = codes "multi_brand_events"

-- A statement that violates no constraint and whose result is not used.
abbrev pub change : (Db → Db) → Sql (Unit {0})
change f = statement (λ db. some (tt, f db))

unfoldable pub run_all : List (Db → Db) → Sql (Unit {0})
run_all [] = pure tt
run_all (f ∷ rest) = change f >> run_all rest

abbrev value_or_zero : Option ℤ → ℤ
value_or_zero none = pos 0
value_or_zero (some n) = n

abbrev pub read_meta : Str → Db → ℤ
read_meta key db = value_or_zero (lookup key db.meta)

unfoldable pub meta_i64 : Str → Sql ℤ
meta_i64 key = query (read_meta key)

abbrev pub partners_of : Option Degree → ℕ
partners_of none = 0
partners_of (some d) = d.partners

abbrev pub events_of : Option Degree → ℕ
events_of none = 0
events_of (some d) = d.events

unfoldable pub partner_degree : Str → Sql ℕ
partner_degree brand = query (λ db. saturate_u32 (partners_of (lookup brand db.brand_degree)))

unfoldable pub event_count : Str → Sql ℕ
event_count brand = query (λ db. saturate_u32 (events_of (lookup brand db.brand_degree)))

unfoldable pub multi_brand_events : Sql ℕ
multi_brand_events = do n ← meta_i64 multi_brand_events_key; pure (pos_part n)

abbrev pub raise_degree : ℕ → Degree → Degree
raise_degree floor d = record { events = max d.events floor; partners = max d.partners floor }

unfoldable pub seed_brand : ℕ → Str → Db → Db
seed_brand floor brand db = record db {
  brand_degree =
      upsert brand (record { events = floor; partners = floor }) (raise_degree floor)
        db.brand_degree;
}

unfoldable pub seed_all : ℕ → List Str → Sql (Unit {0})
seed_all floor [] = pure tt
seed_all floor (raw ∷ rest) =
    let brand = to_ascii_lowercase (trim raw) in
    let later = seed_all floor rest in
    if is_empty brand then later else (change (seed_brand floor brand) >> later)

unfoldable pub seed_degree_floor : List Str → ℕ → Sql (Unit {0})
seed_degree_floor brands floor = if floor == 0 then pure tt else seed_all floor brands

abbrev pub one_more_event : Degree → Degree
one_more_event d = record d { events = d.events + 1 }

unfoldable pub count_event : Str → Db → Db
count_event brand db = record db {
  brand_degree = upsert brand (record { events = 1; partners = 0 }) one_more_event db.brand_degree;
}

abbrev pub has_pair : Str → Str → List (Str × Str) → Bool
has_pair a b pairs = any (λ p. str_eq a p.0 && str_eq b p.1) pairs

unfoldable pub insert_partner : Str → Str → Db → Db
insert_partner a b db = record db {
  brand_partners =
      if has_pair a b db.brand_partners then db.brand_partners else (a, b) ∷ db.brand_partners;
}

-- `SELECT COUNT(*) FROM brand_partners WHERE brand = ?1`
abbrev pub partner_count : Str → Db → ℕ
partner_count brand db = length (filter (λ p. str_eq brand p.0) db.brand_partners)

unfoldable pub refresh_partners : Str → Db → Db
refresh_partners brand db = record db {
  brand_degree =
      update brand (λ d. record d { partners = max d.partners (partner_count brand db) })
        db.brand_degree;
}

abbrev pub one_more : ℤ → ℤ
one_more (pos n) = pos (n + 1)
one_more (ℤ.negsuc zero) = pos 0
one_more (ℤ.negsuc (suc n)) = ℤ.negsuc n

unfoldable pub count_multi_brand : Db → Db
count_multi_brand db = record db { meta = upsert multi_brand_events_key (pos 1) one_more db.meta }

-- The pairs of the two nested loops, the brand itself left out.
unfoldable pub partners_for : Str → List Str → List (Db → Db)
unfolding insert_partner
partners_for a [] = []
partners_for a (b ∷ rest) =
    if str_eq a b then partners_for a rest else insert_partner a b ∷ partners_for a rest

unfoldable pub all_partners : List Str → List Str → List (Db → Db)
unfolding partners_for
all_partners [] brands = []
all_partners (a ∷ rest) brands = partners_for a brands ++ all_partners rest brands

-- The statements between `BEGIN` and `COMMIT`, in their order.
unfoldable pub cooccurrence_statements : List Str → List (Db → Db)
unfolding count_event all_partners refresh_partners count_multi_brand
cooccurrence_statements brands =
    map count_event brands
    ++ (all_partners brands brands ++ (map refresh_partners brands ++ (count_multi_brand ∷ [])))

unfoldable pub record_cooccurrence : List Str → Sql (Unit {0})
record_cooccurrence brands =
    if ltb (length brands) 2
    then pure tt
    else in_transaction (run_all (cooccurrence_statements brands))

unfoldable pub record_appearances : List Str → Sql (Unit {0})
record_appearances brands = run_all (map count_event brands)

-- `i64::try_from(secs).unwrap_or(i64::MAX)`
abbrev i64_of_u64 : ℕ → ℤ
i64_of_u64 n = pos (if leb n i64_max then n else i64_max)

unfoldable pub is_calibrating : ℤ → ℕ → ℕ → Sql Bool
is_calibrating now_unix secs events = if (secs == 0) && (events == 0) then pure false else do
  started ← meta_i64 calibrate_started_at
  let time_ok = (secs == 0) || leb_ℤ (i64_of_u64 secs) (saturating_sub now_unix started)
  events_ok ← (if events == 0 then pure true else do n ← multi_brand_events; pure (leb events n))
  pure (not (time_ok && events_ok))

unfoldable pub new_coalition : Str → ℤ → Db → Bool × Db
unfolding lookup insert_or_ignore
new_coalition key ts db = (
  not (is_some (lookup key db.coalitions)),
  record db { coalitions = insert_or_ignore key ts db.coalitions },
)

unfoldable pub insert_coalition : Str → ℤ → Sql Bool
insert_coalition key ts = statement (λ db. some (new_coalition key ts db))

-- A plain `INSERT`, which fails on a primary key that is there.
unfoldable pub insert_cert : Str → Cert → Db → Option (Unit {0} × Db)
unfolding lookup
insert_cert brands cert db =
    if is_some (lookup brands db.multi_brand_certs)
    then none
    else some (tt, record db { multi_brand_certs = (brands, cert) ∷ db.multi_brand_certs })

-- The clock as one call reads it: `SystemTime::now` in `event_ts`, in `utc_now_instant`, and in
-- `is_calibrating`'s caller.
pub record Clock : Type 0 where
  pub chrono : Chrono
  pub event_now : ℤ
  pub ingest_now : ℤ

unfoldable pub cert_of : Clock → MatchEvent → ℤ → Cert
unfolding sorted_csv unix_to_instant
cert_of clock ev ts = record {
  watchlist_hits = sorted_csv ev.matched_keywords;
  hosts = sorted_csv ev.matched_domains;
  fingerprint = ev.fingerprint;
  seen_at = unix_to_instant clock.chrono ts;
  san_count = ev.san_count;
  ct_log = ev.source;
  ingested_at = unix_to_instant clock.chrono clock.ingest_now;
}

unfoldable pub send_nudge : Bool → Sql Bool
send_nudge true s = (ok true, record s { nudges = s.nudges + 1 })
send_nudge false s = (ok false, s)

-- The closure's part behind the test of `n == 0`.
unfoldable pub capture_row : Clock → List Str → MatchEvent → ℤ → Bool → Sql Bool
capture_row clock brands ev ts false = pure false
capture_row clock brands ev ts true =
    statement (insert_cert (join_csv brands) (cert_of clock ev ts)) >> pure true

unfoldable pub cert_body : Clock → List Str → MatchEvent → ℤ → Sql Bool
cert_body clock brands ev ts = do
  is_new ← insert_coalition (join_fields brands) ts
  capture_row clock brands ev ts is_new

unfoldable pub insert_multi_brand_cert : Clock → List Str → MatchEvent → ℤ → Sql Bool
insert_multi_brand_cert clock brands ev ts = do
  inserted ← in_transaction (cert_body clock brands ev ts)
  send_nudge inserted

abbrev pub has_host : Str → Str → List (Str × Str × ℤ) → Bool
has_host brand host rows = any (λ r. str_eq brand r.0 && str_eq host r.1) rows

unfoldable pub insert_host : Str → Str → ℤ → Sql Bool
insert_host brand host ts = statement λ db. some (
  not (has_host brand host db.hosts),
  record db {
    hosts = if has_host brand host db.hosts then db.hosts else (brand, host, ts) ∷ db.hosts;
  },
)

unfoldable pub multi_brand_cert_count : Sql ℕ
multi_brand_cert_count = query (λ db. length db.multi_brand_certs)

unfoldable pub counts : Sql (ℕ × ℕ)
counts = query (λ db. (length db.coalitions, length db.hosts))

unfoldable pub init_calibrate_started : ℤ → Sql (Unit {0})
init_calibrate_started unix_now =
    change (λ db. record db { meta = insert_or_ignore calibrate_started_at unix_now db.meta })
