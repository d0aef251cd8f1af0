-- ===== src/Novelty/Keeps.antt =====
-- src/novelty.rs: properties of the store that no operation loses, whatever statements fail.
use ct_firehose_filter.Prelude.{
  ◌≡◌, refl, Bool, true, false, Option, none, some, List, [], ◌∷◌, if◌then◌else◌,
}
use ct_firehose_filter.Novelty.Sql.{
  Db, NoveltyStore, Ending, Result, ok, err, Sql, continue, ◌>>=◌, pure, finish, statement, query,
  restored, begin_immediate, open_transaction, close_transaction, undo_transaction, commit,
  rollback, close, in_transaction, next_ending, later_endings,
}
use ct_firehose_filter.Novelty.Store.{run_all}

-- `P` holds of the database and of what undoing an open transaction restores.
pub record Holds (P : Db → Type 0) (s : NoveltyStore) : Type 0 where
  pub now : P s.db
  pub undone : (d : Db) → s.saved ≡ some d → P d

-- The action keeps `P`, whether it succeeds or fails.
pub record Keeps {A : Type 0} (P : Db → Type 0) (m : Sql A) : Type 0 where
  pub at : (s : NoveltyStore) → Holds P s → Holds P (m s).1

restored-Holds : {P : Db → Type 0} (s : NoveltyStore) → Holds P s → P (restored s)
restored-Holds {P} s h = by_saved s.saved h.undone
  where
    by_saved :
        (o : Option Db) → ((d : Db) → o ≡ some d → P d) → P (elim o [ none ↦ s.db | some d ↦ d ])
    by_saved none u = h.now
    by_saved (some d) u = u d refl

abbrev pub AllKeep : (Db → Type 0) → List (Db → Db) → Type 0
AllKeep P [] = Unit {0}
AllKeep P (f ∷ rest) = ((db : Db) → P db → P (f db)) × AllKeep P rest

module _ {P : Db → Type 0} where
  pub Keeps-pure : {A : Type 0} (a : A) → Keeps P (pure a)
  unfolding pure
  Keeps-pure a = record { at = λ s h. h }

  continue-Holds :
      {A B : Type 0} (f : A → Sql B)
      → ((a : A) → Keeps P (f a))
      → (r : Result A) (s : NoveltyStore) → Holds P s
      → Holds P (continue r f s).1
  continue-Holds f k (ok a) s h = (k a).at s h
  continue-Holds f k err s h = h

  pub Keeps-bind :
      {A B : Type 0} (m : Sql A) (f : A → Sql B)
      → Keeps P m
      → ((a : A) → Keeps P (f a))
      → Keeps P (m >>= f)
  unfolding ◌>>=◌
  Keeps-bind m f km kf = record { at = λ s h. continue-Holds f kf (m s).0 (m s).1 (km.at s h) }

  pub Keeps-if :
      {A : Type 0} (b : Bool) (m n : Sql A) → Keeps P m → Keeps P n → Keeps P (if b then m else n)
  Keeps-if true m n km kn = km
  Keeps-if false m n km kn = kn

  finish-Holds :
      {A : Type 0} (e : Ending) (r : Option (A × Db)) (s : NoveltyStore)
      → ((a : A) (db : Db) → r ≡ some (a, db) → P db)
      → Holds P s
      → Holds P (finish e r s).1
  finish-Holds Ending.applied none s k h = h
  finish-Holds Ending.applied (some (a, db)) s k h = record { now = k a db refl; undone = h.undone }
  finish-Holds Ending.failed r s k h = h
  finish-Holds Ending.rolled_back r s k h = record { now = restored-Holds s h; undone = λ d e. cc }

  pub Keeps-statement :
      {A : Type 0} (run : Db → Option (A × Db))
      → ((db : Db) → P db → (a : A) (after : Db) → run db ≡ some (a, after) → P after)
      → Keeps P (statement run)
  unfolding statement
  Keeps-statement run k = record {
    at = λ s h.
        finish-Holds (next_ending s.endings) (run s.db)
          (record s { endings = later_endings s.endings }) (k s.db h.now)
          (record { now = h.now; undone = h.undone });
  }

  pub Keeps-query : {A : Type 0} (read : Db → A) → Keeps P (query read)
  unfolding query
  Keeps-query read =
      Keeps-statement (λ db. some (read db, db))
        (λ db p a after e. let same : db ≡ after = cc in rw (← same) p)

  pub Keeps-run_all : (fs : List (Db → Db)) → AllKeep P fs → Keeps P (run_all fs)
  unfolding run_all
  Keeps-run_all [] k = Keeps-pure tt
  Keeps-run_all (f ∷ rest) k =
      Keeps-bind _ _
        (Keeps-statement _
          (λ db p a after e. let same : f db ≡ after = cc in rw (← same) (k.0 db p)))
        (λ _. Keeps-run_all rest k.1)

  open_transaction-Holds :
      (e : Ending) (o : Option Db) (s : NoveltyStore)
      → Holds P s
      → Holds P (open_transaction e o s).1
  open_transaction-Holds Ending.applied none s h = record {
    now = h.now;
    undone = λ d e. let same : s.db ≡ d = cc in rw (← same) h.now;
  }
  open_transaction-Holds Ending.applied (some d) s h = h
  open_transaction-Holds Ending.failed o s h = h
  open_transaction-Holds Ending.rolled_back o s h = h

  close_transaction-Holds :
      (e : Ending) (o : Option Db) (s : NoveltyStore)
      → s.saved ≡ o
      → Holds P s
      → Holds P (close_transaction e o s).1
  close_transaction-Holds Ending.applied none s p h = h
  close_transaction-Holds Ending.applied (some d) s p h = record { now = h.now; undone = λ d e. cc }
  close_transaction-Holds Ending.failed none s p h = h
  close_transaction-Holds Ending.failed (some d) s p h = h
  close_transaction-Holds Ending.rolled_back none s p h = h
  close_transaction-Holds Ending.rolled_back (some d) s p h = record {
    now = h.undone d p;
    undone = λ d e. cc;
  }

  undo_transaction-Holds :
      (e : Ending) (o : Option Db) (s : NoveltyStore)
      → s.saved ≡ o
      → Holds P s
      → Holds P (undo_transaction e o s).1
  undo_transaction-Holds Ending.applied none s p h = h
  undo_transaction-Holds Ending.applied (some d) s p h = record {
    now = h.undone d p;
    undone = λ d e. cc;
  }
  undo_transaction-Holds Ending.failed none s p h = h
  undo_transaction-Holds Ending.failed (some d) s p h = h
  undo_transaction-Holds Ending.rolled_back none s p h = h
  undo_transaction-Holds Ending.rolled_back (some d) s p h = record {
    now = h.undone d p;
    undone = λ d e. cc;
  }

  Keeps-begin_immediate : Keeps P begin_immediate
  unfolding begin_immediate
  Keeps-begin_immediate = record {
    at = λ s h.
        open_transaction-Holds (next_ending s.endings) s.saved
          (record s { endings = later_endings s.endings })
          (record { now = h.now; undone = h.undone });
  }

  Keeps-commit : Keeps P commit
  unfolding commit
  Keeps-commit = record {
    at = λ s h.
        close_transaction-Holds (next_ending s.closings) s.saved
          (record s { closings = later_endings s.closings }) refl
          (record { now = h.now; undone = h.undone });
  }

  Keeps-close : {A : Type 0} (r : Result A) → Keeps P (close r)
  unfolding close rollback
  Keeps-close (ok a) = Keeps-bind commit (λ _. pure a) Keeps-commit (λ _. Keeps-pure a)
  Keeps-close err = record {
    at = λ s h.
        undo_transaction-Holds (next_ending s.closings) s.saved
          (record s { closings = later_endings s.closings }) refl
          (record { now = h.now; undone = h.undone });
  }

  pub Keeps-in_transaction :
      {A : Type 0} (body : Sql A) → Keeps P body → Keeps P (in_transaction body)
  unfolding in_transaction
  Keeps-in_transaction body k =
      Keeps-bind begin_immediate _ Keeps-begin_immediate
        (λ _. record { at = λ s h. (Keeps-close (body s).0).at (body s).1 (k.at s h) })
