-- ===== src/Sink/Lines.antt =====
-- src/novelty_sink.rs: the writing of lines keeps the coalitions of alerts.jsonl distinct.
use ct_firehose_filter.Prelude.{
  ◌≡◌, ◌∙◌, ap, Bool, true, false, Option, none, some, List, [], ◌∷◌, ◌++◌, arith, Str, str_eq,
  str_eq_iff, contains, IsNodup, inl, inr, Bool-cases,
}
use ct_firehose_filter.Metrics.{PipelineMetrics}
use ct_firehose_filter.Novelty.Sql.{Result, ok, err}
use ct_firehose_filter.Novelty.Store.{join_fields}
use ct_firehose_filter.Novelty.Keeps.{Holds}
use ct_firehose_filter.Alert.Policy.{
  NoveltyAlert, NoveltyKind, tier_a, tier_b, NoveltyCandidate, ProcessStats,
}
use ct_firehose_filter.Alert.Recorded.{Recorded}
use ct_firehose_filter.Alert.FirstSeen.{key_of, alerted_keys}
use ct_firehose_filter.Sink.Send.{
  WriteEnding, SinkConfig, NoveltySink, Sink, and_then, ◌>>=◌, next_write, later_writes, count,
  append_alert, write_alert, write_alerts, append_candidate, write_candidate, report,
}

-- No coalition stands twice among the lines, and each that does is stored for good.
pub record IsUnique (s : NoveltySink) : Type 0 where
  pub nodup : IsNodup (alerted_keys s.alerts)
  pub kept : (k : Str) → contains (alerted_keys s.alerts) k ≡ true → Holds (Recorded k) s.store

-- The step keeps the lines unique, whether it succeeds or fails.
pub record Preserves {A : Type 0} (m : Sink A) : Type 0 where
  pub at : (s : NoveltySink) → IsUnique s → IsUnique (m s).1

pub and_then-IsUnique :
    {A B : Type 0} (f : A → Sink B)
    → ((a : A) → Preserves (f a))
    → (r : Result A) (s : NoveltySink) → IsUnique s
    → IsUnique (and_then r f s).1
and_then-IsUnique f k (ok a) s u = (k a).at s u
and_then-IsUnique f k err s u = u

pub Preserves-bind :
    {A B : Type 0} (m : Sink A) (f : A → Sink B)
    → Preserves m
    → ((a : A) → Preserves (f a))
    → Preserves (m >>= f)
unfolding ◌>>=◌
Preserves-bind m f km kf = record { at = λ s u. and_then-IsUnique f kf (m s).0 (m s).1 (km.at s u) }

-- The lines to write are new and already stored.
pub record Ready (alerts : List NoveltyAlert) (s : NoveltySink) : Type 0 where
  pub unique : IsUnique s
  pub nodup : IsNodup (alerted_keys alerts)
  pub new :
      (k : Str)
      → contains (alerted_keys alerts) k ≡ true
      → contains (alerted_keys s.alerts) k ≡ false
  pub kept : (k : Str) → contains (alerted_keys alerts) k ≡ true → Holds (Recorded k) s.store

rest-IsNodup : (kind : NoveltyKind) (rest : List Str) → IsNodup (key_of kind ++ rest) → IsNodup rest
rest-IsNodup (tier_a brands) rest d = d.1
rest-IsNodup (tier_b brand host hosts) rest d = d

rest_contains :
    (kind : NoveltyKind) (rest : List Str) (k : Str)
    → contains rest k ≡ true
    → contains (key_of kind ++ rest) k ≡ true
rest_contains (tier_a brands) rest k h = ground arith
rest_contains (tier_b brand host hosts) rest k h = h

module _ (rest old : List Str) where
  added-IsNodup :
      (kind : NoveltyKind)
      → ((k : Str) → contains (key_of kind ++ rest) k ≡ true → contains old k ≡ false)
      → IsNodup old
      → IsNodup (key_of kind ++ old)
  added-IsNodup (tier_a brands) new d = (
    new (join_fields brands) (ground (arith, str_eq_iff (join_fields brands) (join_fields brands))),
    d,
  )
  added-IsNodup (tier_b brand host hosts) new d = d

  rest_new :
      (kind : NoveltyKind)
      → IsNodup (key_of kind ++ rest)
      → ((k : Str) → contains (key_of kind ++ rest) k ≡ true → contains old k ≡ false)
      → (k : Str) → contains rest k ≡ true
      → contains (key_of kind ++ old) k ≡ false
  rest_new (tier_a brands) n new k h = elim (Bool-cases (str_eq k (join_fields brands))) [
    | inl same ↦
        let e : k ≡ join_fields brands = (str_eq_iff k (join_fields brands)).0 same in
        let missing : contains rest k ≡ false = ap (contains rest) e ∙ n.0 in absurd (ground arith)
    | inr other ↦ let free = new k (ground arith) in ground arith
  ]
  rest_new (tier_b brand host hosts) n new k h = new k h

  added_kept :
      (kind : NoveltyKind) (P : Str → Type 0)
      → ((k : Str) → contains (key_of kind ++ rest) k ≡ true → P k)
      → ((k : Str) → contains old k ≡ true → P k)
      → (k : Str) → contains (key_of kind ++ old) k ≡ true
      → P k
  added_kept (tier_a brands) P p q k h = elim (Bool-cases (str_eq k (join_fields brands))) [
    | inl same ↦ p k (ground arith)
    | inr other ↦ q k (ground arith)
  ]
  added_kept (tier_b brand host hosts) P p q k h = q k h

-- A line is written.
Ready-append :
    (a : NoveltyAlert) (rest : List NoveltyAlert) (s : NoveltySink)
    → Ready (a ∷ rest) s
    → Ready rest (record s { alerts = a ∷ s.alerts })
Ready-append a rest s r = record {
  unique = record {
    nodup = added-IsNodup (alerted_keys rest) (alerted_keys s.alerts) a.kind r.new r.unique.nodup;
    kept =
        added_kept (alerted_keys rest) (alerted_keys s.alerts) a.kind
          (λ k. Holds (Recorded k) s.store) r.kept r.unique.kept;
  };
  nodup = rest-IsNodup a.kind (alerted_keys rest) r.nodup;
  new = rest_new (alerted_keys rest) (alerted_keys s.alerts) a.kind r.nodup r.new;
  kept = λ k h. r.kept k (rest_contains a.kind (alerted_keys rest) k h);
}

after_write :
    (a : NoveltyAlert) (rest : List NoveltyAlert) (m : Sink (Unit {0}))
    → ((s : NoveltySink) → Ready rest s → IsUnique (m s).1)
    → (e : WriteEnding) (s : NoveltySink) → Ready (a ∷ rest) s
    → IsUnique (and_then (append_alert a e s).0 (λ _. m) (append_alert a e s).1).1
after_write a rest m k WriteEnding.written s r = k _ (Ready-append a rest s r)
after_write a rest m k WriteEnding.unsure s r = (Ready-append a rest s r).unique
after_write a rest m k WriteEnding.lost s r = r.unique

write_alerts-IsUnique :
    (alerts : List NoveltyAlert) (s : NoveltySink)
    → Ready alerts s
    → IsUnique (write_alerts alerts s).1
unfolding write_alerts write_alert ◌>>=◌
write_alerts-IsUnique [] s r = r.unique
write_alerts-IsUnique (a ∷ rest) s r =
    after_write a rest (write_alerts rest) (write_alerts-IsUnique rest) (next_write s.writes)
      (record s { writes = later_writes s.writes })
      (record {
        unique = record { nodup = r.unique.nodup; kept = r.unique.kept };
        nodup = r.nodup;
        new = r.new;
        kept = r.kept;
      })

Preserves-append_candidate :
    (c : NoveltyCandidate) (e : WriteEnding) → Preserves (append_candidate c e)
Preserves-append_candidate c WriteEnding.written = record {
  at = λ s u. record { nodup = u.nodup; kept = u.kept };
}
Preserves-append_candidate c WriteEnding.unsure = record {
  at = λ s u. record { nodup = u.nodup; kept = u.kept };
}
Preserves-append_candidate c WriteEnding.lost = record { at = λ s u. u }

Preserves-write_candidate :
    (has : Bool) (c : Option NoveltyCandidate) → Preserves (write_candidate has c)
unfolding write_candidate
Preserves-write_candidate true (some c) = record {
  at = λ s u.
      (Preserves-append_candidate c (next_write s.writes)).at
        (record s { writes = later_writes s.writes }) (record { nodup = u.nodup; kept = u.kept });
}
Preserves-write_candidate true none = record { at = λ s u. u }
Preserves-write_candidate false c = record { at = λ s u. u }

pub Preserves-count : (f : PipelineMetrics → PipelineMetrics) → Preserves (count f)
unfolding count
Preserves-count f = record { at = λ s u. record { nodup = u.nodup; kept = u.kept } }

pub report-IsUnique :
    (cfg : SinkConfig) (alerts : List NoveltyAlert) (stats : ProcessStats) (s : NoveltySink)
    → Ready alerts s
    → IsUnique (report cfg alerts stats s).1
unfolding report count ◌>>=◌
report-IsUnique cfg alerts stats s r =
    and_then-IsUnique _ (λ _. Preserves-write_candidate cfg.has_candidates stats.candidate) _ _
      (write_alerts-IsUnique alerts _ (record {
        unique = record { nodup = r.unique.nodup; kept = r.unique.kept };
        nodup = r.nodup;
        new = r.new;
        kept = r.kept;
      }))
