-- ===== src/Tests/Archive.antt =====
-- src/archive.rs and src/alerts_file.rs on small inputs.
use ct_firehose_filter.Prelude.{
  ℕ, ◌≡◌, refl, true, false, Option, none, some, List, [], ◌∷◌, ◌++◌, all, arith, inl, Str, codes,
  str_eq, is_empty, if◌then◌else◌,
}
use ct_firehose_filter.Config.{Env, ArchiveConfig}
use ct_firehose_filter.Chunks.{File, gz, is_rotated_sibling, rotated_sort_key, rotated_name}
use ct_firehose_filter.Chunks.Names.{rotated_name-roundtrip}
use ct_firehose_filter.Archive.Event.{MatchArchiveEvent, ConfigProvenance}
use ct_firehose_filter.Archive.Snapshot.{write_config_snapshot}
use ct_firehose_filter.Archive.Hashed.{has_newline, IsHashed, write_config_snapshot-IsHashed}
use ct_firehose_filter.Archive.Files.{Dir, inner_file, live_name, prune_sealed_to_budget}
use ct_firehose_filter.Chunks.Seal.{compresses}
use ct_firehose_filter.Archive.Pruned.{IsPrunedTo, prune_sealed_to_budget-IsPrunedTo}
use ct_firehose_filter.Archive.Writer.{
  Answers, MatchArchive, flushed, rotate_live_if_needed, record_enqueued, bytes_of,
}
use ct_firehose_filter.Archive.Resealed.{leaves_both}
use ct_firehose_filter.Archive.Rotated.{IsOpen, IsClean}
use ct_firehose_filter.Archive.Recorded.{Adds, record_enqueued-Records}
use ct_firehose_filter.Archive.Lost.{Call, record_all, record_all-Loses}
use ct_firehose_filter.Tests.Data.{alpha, beta, pair_event}

rotated_name-roundtrip_example :
    (is_rotated_sibling (codes "a.jsonl") (rotated_name (codes "a.jsonl") 17) ≡ true)
    × (rotated_sort_key (rotated_name (codes "a.jsonl") 17) ≡ 17)
    × (is_rotated_sibling (codes "a.jsonl") (rotated_name (codes "a.jsonl") 17 ++ gz) ≡ true)
    × (rotated_sort_key (rotated_name (codes "a.jsonl") 17 ++ gz) ≡ 17)
rotated_name-roundtrip_example = rotated_name-roundtrip (codes "a.jsonl") 17 (omega arith)

abbrev many : List Str
many = codes "c.com" ∷ alpha ∷ codes "d.com" ∷ beta ∷ []

abbrev limit : ℕ
limit = 3

abbrev config : ArchiveConfig
config = record {
  dir = codes "/archive";
  max_bytes = 1024;
  disk_warn_bytes = 4096;
  max_total_bytes = 900;
  max_all_domains = 32;
}

abbrev chunk : Str → ℕ → File
chunk name size = record { name = name; lines = (1 ∷ []) ∷ []; size = size }

abbrev old_dir : Dir
old_dir = record {
  files =
      chunk (codes "matches.jsonl.20") 500
      ∷ chunk (codes "matches.jsonl.3.gz") 400
      ∷ chunk (codes "notes.txt") 100
      ∷ chunk live_name 300
      ∷ [];
  folders = (inner_file 50 ∷ []) ∷ [];
}

prune_sealed_to_budget-IsPrunedTo_example :
    IsPrunedTo config
      (λ name. true)
      old_dir
      (prune_sealed_to_budget config true (λ name. true) old_dir)
prune_sealed_to_budget-IsPrunedTo_example =
    prune_sealed_to_budget-IsPrunedTo config (λ name. true) old_dir refl

abbrev answers : Answers
answers = record {
  secs = some 1700000000;
  nanos = 42;
  flushes = true;
  flush_torn = 0;
  opens_placeholder = true;
  renames = true;
  gzip = compresses;
  lists = true;
  deletes = λ name. true;
  reopens = true;
  writes = true;
  torn = 0;
  flushes_again = true;
  flush_again_torn = 0;
}

abbrev no_reopen : Answers
no_reopen = record answers { reopens = false }

abbrev unbounded : ArchiveConfig
unbounded = record config { max_total_bytes = 0 }

abbrev full : MatchArchive
full = record {
  dir = record { files = chunk live_name 2000 ∷ []; folders = [] };
  on_live = true;
  buffered = (2 ∷ []) ∷ [];
  session = 0;
  metrics = none;
}

full-IsOpen : IsOpen unbounded full
full-IsOpen = record {
  last = record {
    before = [];
    current = chunk live_name 2000;
    parts = refl;
    none = refl;
    live = refl;
  };
  writer = inl refl;
}

clean : IsClean answers (flushed full).dir.files
unfolding leaves_both
clean = record { time = omega arith; free = refl; free_gz = refl; one_copy = refl; opens = refl }

abbrev provenance : ConfigProvenance
provenance = record { config_hash = codes "c0"; snapshot_id = codes "1" }

abbrev to_vec : MatchArchiveEvent → Option (List ℕ)
to_vec e = some (codes "{}")

record_enqueued-Records_example :
    Adds bytes_of unbounded answers
      (codes "{}\n")
      full
      (record_enqueued bytes_of unbounded answers to_vec provenance pair_event many full)
record_enqueued-Records_example =
    record_enqueued-Records bytes_of unbounded answers to_vec provenance pair_event many full
      (codes "{}") full-IsOpen clean refl refl

abbrev calls : List Call
calls =
    record { io = answers; prov = provenance; ev = pair_event; all_domains = many }
    ∷ record { io = answers; prov = provenance; ev = pair_event; all_domains = [] }
    ∷ []

record_all-Loses_example :
    ((rotate_live_if_needed bytes_of config no_reopen full).0 ≡ false)
    × (all
          (λ b. b)
          (record_all bytes_of config to_vec calls
            (rotate_live_if_needed bytes_of config no_reopen full).1).0
        ≡ true)
    × ((record_all bytes_of config to_vec calls
          (rotate_live_if_needed bytes_of config no_reopen full).1).1.dir
        ≡ (rotate_live_if_needed bytes_of config no_reopen full).1.dir)
record_all-Loses_example =
    record_all-Loses bytes_of config to_vec no_reopen full calls (omega arith) (omega arith) refl
      refl refl refl refl refl

abbrev variables : Env
variables key =
    if str_eq key (codes "NOVELTY_TIERS")
    then some (codes "A,B")
    else if str_eq key (codes "SOURCE_VERSION")
    then some (codes "f00d")
    else none

abbrev contents : Str → Option (List ℕ)
contents path = if str_eq path (codes "watchlist.txt") then some (codes "acme.com\n") else none

abbrev digest : List ℕ → Str
digest bytes = if is_empty bytes then codes "e3" else codes "5d"

digest_clean : (bytes : List ℕ) → has_newline (digest bytes) ≡ false
digest_clean [] = refl
digest_clean (b ∷ bytes) = refl

write_config_snapshot-IsHashed_example :
    IsHashed digest contents variables
      (codes "watchlist.txt")
      (codes "suppress.txt")
      (codes "glue.txt")
      (write_config_snapshot digest contents variables
        (some 1700000000)
        true
        (codes "watchlist.txt")
        (codes "suppress.txt")
        (codes "glue.txt"))
write_config_snapshot-IsHashed_example =
    write_config_snapshot-IsHashed digest contents variables (some 1700000000)
      (codes "watchlist.txt") (codes "suppress.txt") (codes "glue.txt") digest_clean refl
