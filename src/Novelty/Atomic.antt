-- ===== src/Novelty/Atomic.antt =====
-- src/novelty.rs: a transaction is applied whole or not at all, however its statements end.
use ct_firehose_filter.Prelude.{
  ◌≡◌, refl, sym, ◌∙◌, ap, false, Option, none, some, List, [], ◌∷◌, arith, length, ltb, ◌≤◌, Str,
  ◌⊎◌, inl, inr,
}
use ct_firehose_filter.Novelty.Sql.{
  Db, NoveltyStore, Ending, Result, ok, err, Sql, continue, ◌>>=◌, restored, finish, statement,
  open_transaction, close_transaction, undo_transaction, next_ending, later_endings,
  begin_immediate, close, commit, rollback, in_transaction,
}
use ct_firehose_filter.Novelty.Store.{run_all, cooccurrence_statements, record_cooccurrence}

abbrev pub apply_all : List (Db → Db) → Db → Db
apply_all [] db = db
apply_all (f ∷ rest) db = apply_all rest (f db)

-- Inside a transaction that began at `start`, whose `COMMIT` or `ROLLBACK` ends as `c` says.
abbrev pub IsInside : Db → List Ending → NoveltyStore → Type 0
IsInside start c s = (s.saved ≡ some start) × (s.closings ≡ c)

-- In it, a success has reached `target`, and after a failure the transaction can still be undone,
-- or has been.
abbrev pub Follows :
    {A : Type 0} → Db → List Ending → (A → Db → Type 0) → Result A → NoveltyStore → Type 0
Follows start c target (ok a) s = IsInside start c s × target a s.db
Follows start c target err s = ((s.saved ≡ none) × (s.db ≡ start)) ⊎ IsInside start c s

-- After it, a success is complete and closed. After a failure what is stored is what was there
-- before and no transaction is open, or else the closing statement has failed, and undoing the open
-- transaction gives what was there before.
abbrev pub Committed :
    {A : Type 0} → Db → List Ending → (A → Db → Type 0) → Result A → NoveltyStore → Type 0
Committed start c target (ok a) s = (s.saved ≡ none) × target a s.db
Committed start c target err s =
    ((s.saved ≡ none) × (s.db ≡ start)) ⊎ ((s.saved ≡ some start) × (next_ending c ≡ Ending.failed))

restored-saved : (s : NoveltyStore) (d : Db) → s.saved ≡ some d → restored s ≡ d
restored-saved s d h = rw h

module _ {A : Type 0} (start : Db) (c : List Ending) (s : NoveltyStore)
    (inside : IsInside start c s) where
  -- One statement inside the transaction.
  finish-Follows :
      (target : A → Db → Type 0) (e : Ending) (r : Option (A × Db))
      → ((a : A) (db : Db) → r ≡ some (a, db) → target a db)
      → Follows start c target (finish e r s).0 (finish e r s).1
  finish-Follows target Ending.applied none h = inr inside
  finish-Follows target Ending.applied (some (a, db)) h = (inside, h a db refl)
  finish-Follows target Ending.failed r h = inr inside
  finish-Follows target Ending.rolled_back r h = inl (refl, restored-saved s start inside.0)

continue-Follows :
    {A B : Type 0} (start : Db) (c : List Ending) (mid : A → Db → Type 0) (target : B → Db → Type 0)
    (f : A → Sql B)
    → ((a : A) (s : NoveltyStore)
        → IsInside start c s
        → mid a s.db
        → Follows start c target (f a s).0 (f a s).1)
    → (r : Result A) (s : NoveltyStore) → Follows start c mid r s
    → Follows start c target (continue r f s).0 (continue r f s).1
continue-Follows start c mid target f h (ok a) s (o, m) = h a s o m
continue-Follows start c mid target f h err s m = m

statement-Follows :
    {A : Type 0} (start : Db) (c : List Ending) (target : A → Db → Type 0)
    (run : Db → Option (A × Db)) (s : NoveltyStore)
    → IsInside start c s
    → ((a : A) (db : Db) → run s.db ≡ some (a, db) → target a db)
    → Follows start c target (statement run s).0 (statement run s).1
unfolding statement
statement-Follows start c target run s o h =
    finish-Follows start c (record s { endings = later_endings s.endings }) o target
      (next_ending s.endings) (run s.db) h

-- A statement, then the rest of the transaction.
pub bind-Follows :
    {A B : Type 0} (start : Db) (c : List Ending) (mid : A → Db → Type 0) (target : B → Db → Type 0)
    (run : Db → Option (A × Db)) (f : A → Sql B) (s : NoveltyStore)
    → IsInside start c s
    → ((a : A) (db : Db) → run s.db ≡ some (a, db) → mid a db)
    → ((a : A) (t : NoveltyStore)
        → IsInside start c t
        → mid a t.db
        → Follows start c target (f a t).0 (f a t).1)
    → Follows start c target ((statement run >>= f) s).0 ((statement run >>= f) s).1
unfolding ◌>>=◌
bind-Follows start c mid target run f s o m h =
    continue-Follows start c mid target f h (statement run s).0 (statement run s).1
      (statement-Follows start c mid run s o m)

run_all-Follows :
    (start : Db) (c : List Ending) (fs : List (Db → Db)) (s : NoveltyStore)
    → IsInside start c s
    → Follows start c (λ _ db. db ≡ apply_all fs s.db) (run_all fs s).0 (run_all fs s).1
unfolding run_all ◌>>=◌
run_all-Follows start c [] s o = (o, refl)
run_all-Follows start c (f ∷ rest) s o =
    bind-Follows start c (λ _ db. db ≡ f s.db) (λ _ db. db ≡ apply_all rest (f s.db))
      (λ db. some (tt, f db)) (λ _. run_all rest) s o (λ a db e. cc)
      (λ a t ot e. rw (← e) (run_all-Follows start c rest t ot))

module _ {A : Type 0} (start : Db) (c : List Ending) (target : A → Db → Type 0)
    (s : NoveltyStore) where
  commit-Committed :
      (a : A) (e : Ending) (o : Option Db)
      → next_ending c ≡ e
      → o ≡ some start
      → s.saved ≡ some start
      → target a s.db
      → Committed start c target
          (continue (close_transaction e o s).0 (λ _ t. (ok a, t)) (close_transaction e o s).1).0
          (continue (close_transaction e o s).0 (λ _ t. (ok a, t)) (close_transaction e o s).1).1
  commit-Committed a e none h p q t = absurd cc
  commit-Committed a Ending.applied (some d) h p q t = (refl, t)
  commit-Committed a Ending.failed (some d) h p q t = inr (q, h)
  commit-Committed a Ending.rolled_back (some d) h p q t = inl (refl, cc)

  rollback-Committed :
      (e : Ending) (o : Option Db)
      → s.saved ≡ o
      → ((s.saved ≡ none) × (s.db ≡ start)) ⊎ ((s.saved ≡ some start) × (next_ending c ≡ e))
      → Committed start c target err (undo_transaction e o s).1
  rollback-Committed Ending.applied none p (inl q) = inl q
  rollback-Committed Ending.failed none p (inl q) = inl q
  rollback-Committed Ending.rolled_back none p (inl q) = inl q
  rollback-Committed e none p (inr q) = absurd cc
  rollback-Committed e (some d) p (inl q) = absurd cc
  rollback-Committed Ending.applied (some d) p (inr q) = inl (refl, cc)
  rollback-Committed Ending.failed (some d) p (inr q) = inr q
  rollback-Committed Ending.rolled_back (some d) p (inr q) = inl (refl, cc)

close-Committed :
    {A : Type 0} (start : Db) (c : List Ending) (target : A → Db → Type 0) (r : Result A)
    (s : NoveltyStore)
    → Follows start c target r s
    → Committed start c target (close r s).0 (close r s).1
unfolding close commit rollback ◌>>=◌
close-Committed start c target (ok a) s (o, t) =
    commit-Committed start c target (record s { closings = later_endings s.closings }) a
      (next_ending s.closings) s.saved (ap next_ending (sym o.1)) o.0 o.0 t
close-Committed start c target err s (inl q) =
    rollback-Committed start c target (record s { closings = later_endings s.closings })
      (next_ending s.closings) s.saved refl (inl q)
close-Committed start c target err s (inr q) =
    rollback-Committed start c target (record s { closings = later_endings s.closings })
      (next_ending s.closings) s.saved refl (inr (q.0, ap next_ending (sym q.1)))

begin-Committed :
    {A : Type 0} (start : Db) (c : List Ending) (target : A → Db → Type 0) (body : Sql A)
    → ((t : NoveltyStore)
        → IsInside start c t
        → t.db ≡ start
        → Follows start c target (body t).0 (body t).1)
    → (e : Ending) (o : Option Db) (s : NoveltyStore) → s.db ≡ start
    → s.closings ≡ c
    → s.saved ≡ none
    → o ≡ none
    → Committed start c target
        (continue
          (open_transaction e o s).0
          (λ _ t. close (body t).0 (body t).1)
          (open_transaction e o s).1).0
        (continue
          (open_transaction e o s).0
          (λ _ t. close (body t).0 (body t).1)
          (open_transaction e o s).1).1
begin-Committed start c target body h Ending.applied none s d g p q =
    close-Committed start c target _ _ (h (record s { saved = some s.db }) (ap some d, g) d)
begin-Committed start c target body h Ending.applied (some x) s d g p q = absurd cc
begin-Committed start c target body h Ending.failed o s d g p q = inl (p, d)
begin-Committed start c target body h Ending.rolled_back o s d g p q = inl (p, d)

pub in_transaction-Committed :
    {A : Type 0} (target : A → Db → Type 0) (body : Sql A) (s : NoveltyStore)
    → s.saved ≡ none
    → ((t : NoveltyStore)
        → IsInside s.db s.closings t
        → t.db ≡ s.db
        → Follows s.db s.closings target (body t).0 (body t).1)
    → Committed s.db s.closings target (in_transaction body s).0 (in_transaction body s).1
unfolding in_transaction begin_immediate ◌>>=◌
in_transaction-Committed target body s closed h =
    begin-Committed s.db s.closings target body h (next_ending s.endings) s.saved
      (record s { endings = later_endings s.endings }) refl refl closed closed

-- However the statements end, a co-occurrence is recorded whole or not at all. If it succeeds, the
-- transaction is closed and all its statements are applied. If it fails, what is stored is what was
-- there before and no transaction is open, unless the closing `COMMIT` or `ROLLBACK` itself failed:
-- then the transaction is still open, and undoing it gives what was there before.
pub record_cooccurrence-Committed :
    (brands : List Str) (s : NoveltyStore)
    → s.saved ≡ none
    → 2 ≤ length brands
    → Committed s.db s.closings
        (λ _ db. db ≡ apply_all (cooccurrence_statements brands) s.db)
        (record_cooccurrence brands s).0
        (record_cooccurrence brands s).1
unfolding record_cooccurrence
record_cooccurrence-Committed brands s closed several =
    let e : ltb (length brands) 2 ≡ false = ground arith in
    rw e (
      in_transaction-Committed _ (run_all (cooccurrence_statements brands)) s closed (λ t o d.
        rw (← d) (
          run_all-Follows t.db s.closings (cooccurrence_statements brands) t
            (o.0 ∙ ap some (sym d), o.1))))
