-- ===== src/Tests/AlertsFile.antt =====
-- src/alerts_file.rs on small inputs.
use ct_firehose_filter.Prelude.{ℕ, ◌≡◌, refl, true, false, some, List, [], ◌∷◌, all, codes, arith}
use ct_firehose_filter.Chunks.Seal.{compresses}
use ct_firehose_filter.Archive.Writer.{bytes_of}
use ct_firehose_filter.AlertsFile.{AlertsFileConfig, Answers, AlertsFile, write_line}
use ct_firehose_filter.AlertsFile.Lost.{write_lines, write_lines-Loses}

abbrev config : AlertsFileConfig
config = record {
  path = codes "alerts.jsonl";
  max_bytes = 1024;
  max_total_bytes = 4096;
  gzip_rotated = true;
}

abbrev no_open : Answers
no_open = record {
  nanos = 42;
  writes = true;
  stats = true;
  renames = true;
  gzip = compresses;
  lists = true;
  deletes = λ name. true;
  opens = false;
}

abbrev opens : Answers
opens = record no_open { opens = true }

abbrev grown : AlertsFile
grown = record {
  files = record { name = config.path; lines = []; size = 1022 } ∷ [];
  target = some (codes "alerts.jsonl");
}

abbrev calls : List (Answers × List ℕ)
calls = (opens, codes "a") ∷ (opens, codes "b") ∷ []

write_lines-Loses_example :
    ((write_line bytes_of config no_open (codes "x") grown).0 ≡ false)
    × (all
          (λ b. b)
          (write_lines bytes_of config calls
            (write_line bytes_of config no_open (codes "x") grown).1).0
        ≡ true)
    × ((write_lines bytes_of config calls
          (write_line bytes_of config no_open (codes "x") grown).1).1.files
        ≡ (write_line bytes_of config no_open (codes "x") grown).1.files)
write_lines-Loses_example =
    write_lines-Loses bytes_of config no_open (codes "x") grown calls refl (omega arith) refl refl
      refl refl refl refl refl refl refl
