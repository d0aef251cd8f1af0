-- ===== src/Novelty/Sql.antt =====
-- src/novelty.rs: the state of the SQLite connection and the ways in which one statement ends.
-- SQLite is not part of the program. Of it the model has what the code relies on: a statement is
-- applied whole or not at all, `ROLLBACK` restores what `BEGIN` found, and a failing statement
-- may have rolled back the open transaction by itself. How each statement ends is chosen by a
-- schedule that the state carries, so a theorem over all states is one over all failures. The
-- statements that close a transaction have a schedule of their own.
use ct_firehose_filter.Prelude.{ℕ, Option, none, some, List, [], ◌∷◌, Str}
use ct_firehose_filter.Prelude.Int.{ℤ}
use ct_firehose_filter.Novelty.Table.{Table}

-- `brand_degree`
pub record Degree : Type 0 where
  pub events : ℕ
  pub partners : ℕ

-- A row of `multi_brand_certs` behind its key, `brands`.
pub record Cert : Type 0 where
  pub watchlist_hits : Str
  pub hosts : Str
  pub fingerprint : Option Str
  pub seen_at : Str
  pub san_count : ℕ
  pub ct_log : Option Str
  pub ingested_at : Str

pub record Db : Type 0 where
  pub coalitions : Table ℤ
  pub hosts : List (Str × Str × ℤ)
  pub brand_degree : Table Degree
  pub brand_partners : List (Str × Str)
  -- The texts of `meta` are decimal integers, by all statements that write them.
  pub meta : Table ℤ
  pub multi_brand_certs : Table Cert

-- How a statement ends: it is applied; it fails; it fails and SQLite has rolled back.
pub data Ending : Type 0 where
  applied failed rolled_back : Ending

pub record NoveltyStore : Type 0 where
  pub db : Db
  -- What `ROLLBACK` restores, while a transaction is open.
  pub saved : Option Db
  -- The endings of the statements to come, and those of the `COMMIT`s and `ROLLBACK`s to come;
  -- after the last, all are applied.
  pub endings : List Ending
  pub closings : List Ending
  pub nudges : ℕ

-- `Result<A, rusqlite::Error>`
pub data Result (A : Type 0) : Type 0 where
  ok : A → Result A
  err : Result A

abbrev pub Sql : Type 0 → Type 0
Sql A = NoveltyStore → Result A × NoveltyStore

abbrev pub continue : {A B : Type 0} → Result A → (A → Sql B) → Sql B
continue (ok a) f s = f a s
continue err f s = (err, s)

unfoldable pub pure : {A : Type 0} → A → Sql A
pure a s = (ok a, s)

-- Opening this opens `pure` too.
infixl 10 ◌>>=◌ ◌>>◌
unfoldable pub ◌>>=◌ : {A B : Type 0} → Sql A → (A → Sql B) → Sql B
unfolding pure
◌>>=◌ m f s = continue (m s).0 f (m s).1

abbrev pub ◌>>◌ : {A B : Type 0} → Sql A → Sql B → Sql B
m >> k = m >>= λ _. k

abbrev pub next_ending : List Ending → Ending
next_ending [] = Ending.applied
next_ending (e ∷ rest) = e

abbrev pub later_endings : List Ending → List Ending
later_endings [] = []
later_endings (e ∷ rest) = rest

abbrev pub restored : NoveltyStore → Db
restored s = elim s.saved [ none ↦ s.db | some d ↦ d ]

-- The end of a statement that changes the database, or violates a constraint.
abbrev pub finish : {A : Type 0} → Ending → Option (A × Db) → Sql A
finish Ending.applied none s = (err, s)
finish Ending.applied (some (a, db)) s = (ok a, record s { db = db })
finish Ending.failed r s = (err, s)
finish Ending.rolled_back r s = (err, record s { db = restored s; saved = none })

unfoldable pub statement : {A : Type 0} → (Db → Option (A × Db)) → Sql A
statement run s =
    finish (next_ending s.endings) (run s.db) (record s { endings = later_endings s.endings })

-- `query_row`
unfoldable pub query : {A : Type 0} → (Db → A) → Sql A
query read = statement (λ db. some (read db, db))

-- `BEGIN IMMEDIATE` is refused inside a transaction.
abbrev pub open_transaction : Ending → Option Db → Sql (Unit {0})
open_transaction Ending.applied none s = (ok tt, record s { saved = some s.db })
open_transaction _ _ s = (err, s)

unfoldable pub begin_immediate : Sql (Unit {0})
begin_immediate s =
    open_transaction (next_ending s.endings) s.saved
      (record s { endings = later_endings s.endings })

abbrev pub close_transaction : Ending → Option Db → Sql (Unit {0})
close_transaction Ending.applied (some d) s = (ok tt, record s { saved = none })
close_transaction Ending.rolled_back (some d) s = (err, record s { db = d; saved = none })
close_transaction _ _ s = (err, s)

unfoldable pub commit : Sql (Unit {0})
commit s =
    close_transaction (next_ending s.closings) s.saved
      (record s { closings = later_endings s.closings })

abbrev pub undo_transaction : Ending → Option Db → Sql (Unit {0})
undo_transaction Ending.applied (some d) s = (ok tt, record s { db = d; saved = none })
undo_transaction Ending.rolled_back (some d) s = (err, record s { db = d; saved = none })
undo_transaction _ _ s = (err, s)

unfoldable pub rollback : Sql (Unit {0})
rollback s =
    undo_transaction (next_ending s.closings) s.saved
      (record s { closings = later_endings s.closings })

-- The `match result` after the closure: `COMMIT`, or `ROLLBACK` with its own result ignored.
unfoldable pub close : {A : Type 0} → Result A → Sql A
close (ok a) s = (commit >>= λ _. pure a) s
close err s = (err, (rollback s).1)

unfoldable pub in_transaction : {A : Type 0} → Sql A → Sql A
in_transaction body = begin_immediate >> λ s. close (body s).0 (body s).1
