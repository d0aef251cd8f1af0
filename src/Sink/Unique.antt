-- ===== src/Sink/Unique.antt =====
-- src/novelty_sink.rs: no coalition stands twice in alerts.jsonl.
use ct_firehose_filter.Prelude.{
  ℕ, ◌≡◌, refl, ap, Bool, ◌&&◌, ◌==◌, subst, List, [], ◌∷◌, arith, Str, contains, inl, inr,
  Bool-cases,
}
use ct_firehose_filter.Prelude.Int.{ℤ}
use ct_firehose_filter.Event.{MatchEvent}
use ct_firehose_filter.Novelty.Sql.{Db, NoveltyStore, Result, ok, err, Sql}
use ct_firehose_filter.Novelty.Store.{is_calibrating, meta_i64, multi_brand_events}
use ct_firehose_filter.Novelty.Keeps.{Holds, Keeps, Keeps-pure, Keeps-bind, Keeps-if, Keeps-query}
use ct_firehose_filter.Alert.Policy.{NoveltyAlert, NoveltyPolicy}
use ct_firehose_filter.Alert.Process.{Outcome, process_match}
use ct_firehose_filter.Alert.Stability.{Keeps-process_match}
use ct_firehose_filter.Alert.Recorded.{Recorded, Recorded-IsStable}
use ct_firehose_filter.Alert.FirstSeen.{alerted_keys}
use ct_firehose_filter.Alert.Once.{Once, process_match-Once}
use ct_firehose_filter.Sink.Send.{
  SinkConfig, NoveltySink, and_then, ◌>>=◌, on_store, next_match, report, process_one, send_one,
  send_all, send_batch,
}
use ct_firehose_filter.Sink.Lines.{
  IsUnique, Preserves, Preserves-bind, Preserves-count, Ready, report-IsUnique,
}

Preserves-on_store :
    {A : Type 0} (m : Sql A) → ((k : Str) → Keeps (Recorded k) m) → Preserves (on_store m)
unfolding on_store
Preserves-on_store m keeps = record {
  at = λ s u. record { nodup = u.nodup; kept = λ k h. (keeps k).at s.store (u.kept k h) };
}

Keeps-meta_i64 : {P : Db → Type 0} (key : Str) → Keeps P (meta_i64 key)
unfolding meta_i64
Keeps-meta_i64 key = Keeps-query _

Keeps-multi_brand_events : {P : Db → Type 0} → Keeps P multi_brand_events
unfolding multi_brand_events
Keeps-multi_brand_events = Keeps-bind _ _ (Keeps-meta_i64 _) (λ n. Keeps-pure _)

Keeps-is_calibrating :
    {P : Db → Type 0} (now : ℤ) (secs events : ℕ) → Keeps P (is_calibrating now secs events)
unfolding is_calibrating
Keeps-is_calibrating now secs events = Keeps-if ((secs == 0) && (events == 0)) _ _ (Keeps-pure _) (
    Keeps-bind _ _ (Keeps-meta_i64 _) λ started.
      Keeps-bind _ _
        (Keeps-if (events == 0) _ _ (Keeps-pure _)
          (Keeps-bind _ _ Keeps-multi_brand_events (λ n. Keeps-pure _)))
        (λ events_ok. Keeps-pure _))

-- After a successful `process_match` its alerts can be written.
matched-Ready :
    (alerts : List NoveltyAlert) (s : NoveltySink) (t : NoveltyStore)
    → IsUnique s
    → ((k : Str) → Holds (Recorded k) s.store → Holds (Recorded k) t)
    → Once s.store alerts t
    → Ready alerts (record s { store = t })
matched-Ready alerts s t u carry o = record {
  unique = record { nodup = u.nodup; kept = λ k h. carry k (u.kept k h) };
  nodup = o.nodup;
  new = λ k h. elim (Bool-cases (contains (alerted_keys s.alerts) k)) [
    | inl there ↦ let not_new = o.new k (u.kept k there) in absurd (ground arith)
    | inr free ↦ free
  ];
  kept = o.kept;
}

Preserves-process_one :
    (cfg : SinkConfig) (n : ℕ) (calibrating : Bool) (ev : MatchEvent)
    → Preserves (process_one cfg n calibrating ev)
unfolding process_one on_store ◌>>=◌
Preserves-process_one cfg n calibrating ev = record { at = λ s u. after s u _ _ refl }
  where
    policy : NoveltyPolicy
    policy = record cfg.policy { calibrating = calibrating }

    carry :
        (s : NoveltySink) (k : Str)
        → Holds (Recorded k) s.store
        → Holds (Recorded k) (process_match (cfg.clock_at n) cfg.ignore policy ev s.store).1
    carry s k h =
        (Keeps-process_match (Recorded-IsStable k) (cfg.clock_at n) cfg.ignore policy ev).at s.store
          h

    after :
        (s : NoveltySink)
        → IsUnique s
        → (r : Result Outcome) (t : NoveltyStore)
        → process_match (cfg.clock_at n) cfg.ignore policy ev s.store ≡ (r, t)
        → IsUnique
            (and_then r (λ outcome. report cfg outcome.0 outcome.1) (record s { store = t })).1
    after s u (ok outcome) t e =
        report-IsUnique cfg outcome.0 outcome.1 (record s { store = t })
          (matched-Ready outcome.0 s t u
            (λ k h. subst (Holds (Recorded k)) (ap (λ p. p.1) e) (carry s k h))
            (process_match-Once (cfg.clock_at n) cfg.ignore policy ev s.store t outcome.0 outcome.1
              e))
    after s u err t e = record {
      nodup = u.nodup;
      kept = λ k h. subst (Holds (Recorded k)) (ap (λ p. p.1) e) (carry s k (u.kept k h));
    }

Preserves-send_one : (cfg : SinkConfig) (ev : MatchEvent) → Preserves (send_one cfg ev)
unfolding send_one next_match
Preserves-send_one cfg ev =
    Preserves-bind next_match _ (record { at = λ s u. record { nodup = u.nodup; kept = u.kept } })
      λ n.
        Preserves-bind _ _ (Preserves-on_store _ (λ k. Keeps-is_calibrating _ _ _)) λ calibrating.
          Preserves-bind _ _ (Preserves-count _) λ _. Preserves-process_one cfg n calibrating ev

Preserves-send_all : (cfg : SinkConfig) (items : List MatchEvent) → Preserves (send_all cfg items)
unfolding send_all
Preserves-send_all cfg [] = record { at = λ s u. u }
Preserves-send_all cfg (ev ∷ rest) =
    Preserves-bind _ _ (Preserves-send_one cfg ev) (λ _. Preserves-send_all cfg rest)

Preserves-send_batch :
    (cfg : SinkConfig) (items : List MatchEvent) → Preserves (send_batch cfg items)
unfolding send_batch
Preserves-send_batch cfg [] = record { at = λ s u. u }
Preserves-send_batch cfg (ev ∷ rest) = record {
  at = λ s u. (Preserves-send_all cfg (ev ∷ rest)).at s u;
}

-- Batches sent one after the other, again or not, whatever came of them.
abbrev pub send_batches : SinkConfig → List (List MatchEvent) → NoveltySink → NoveltySink
send_batches cfg [] s = s
send_batches cfg (items ∷ rest) s = send_batches cfg rest (send_batch cfg items s).1

-- Whatever statements of the database and writes of lines fail, and however often a batch is sent
-- again: if no coalition stands twice among the lines written so far and each is stored, the same
-- holds after any sequence of batches.
pub send_batches-IsUnique :
    (cfg : SinkConfig) (batches : List (List MatchEvent)) (s : NoveltySink)
    → IsUnique s
    → IsUnique (send_batches cfg batches s)
send_batches-IsUnique cfg [] s u = u
send_batches-IsUnique cfg (items ∷ rest) s u =
    send_batches-IsUnique cfg rest _ ((Preserves-send_batch cfg items).at s u)
