-- ===== src/Batch/Run.antt =====
-- src/batch.rs: the loops of the batcher, and `run` from an event's arrival to its delivery.
use ct_firehose_filter.Prelude.{
  ℕ, zero, suc, ◌≡◌, ◌≤◌, refl, sym, ◌∙◌, ap, Bool, true, false, not, Option, List, [], ◌∷◌, ◌++◌,
  arith, length, is_empty, all, Bool-cases, inl, inr, append-nil, append_assoc,
}
use ct_firehose_filter.Event.{MatchEvent}
use ct_firehose_filter.Batch.Batcher.{
  BatchConfig, Batcher, BatchResult, send_prefix_with_retry, on_done, send_while, flush,
  flush_ready, enqueue, push, Input, received, deadline, run, should_flush_now,
}
use ct_firehose_filter.Batch.Prefix.{fits}
use ct_firehose_filter.Batch.Delivery.{
  concat, stream, IsValid, IsUsable, AreBatches, send_prefix-Rounds,
}

cons_of_nonempty :
    (l : List MatchEvent)
    → is_empty l ≡ false
    → (e : MatchEvent) × (rest : List MatchEvent) × (l ≡ e ∷ rest)
cons_of_nonempty [] h = absurd cc
cons_of_nonempty (e ∷ rest) h = (e, rest, refl)

nil_of_empty : (l : List MatchEvent) → is_empty l ≡ true → l ≡ []
nil_of_empty [] h = refl
nil_of_empty (e ∷ rest) h = absurd cc

all-snoc :
    (p : MatchEvent → Bool) (l : List MatchEvent) (e : MatchEvent)
    → all p l ≡ true
    → p e ≡ true
    → all p (l ++ (e ∷ [])) ≡ true
all-snoc p [] e h q = ground arith
all-snoc p (x ∷ l) e h q = ground (arith, all-snoc p l e)

-- The events that arrive, in order.
abbrev pub events_of : List Input → List MatchEvent
events_of [] = []
events_of (received e ∷ rest) = e ∷ events_of rest
events_of (deadline ∷ rest) = events_of rest

module _ (serialized_len : MatchEvent → Option ℕ) (cfg : BatchConfig) where
  on_done-done :
      (r : BatchResult) (b : Batcher) (f : Batcher → BatchResult × Batcher)
      → r ≡ BatchResult.done
      → on_done serialized_len cfg (r, b) f ≡ f b
  on_done-done r b f e = rw e refl

  -- A loop that has ended well, its test being false.
  pub record Completes (test : Batcher → Bool) (b : Batcher) (r : BatchResult × Batcher)
      : Type 0 where
    pub ended : r.0 ≡ BatchResult.done
    pub stopped : test r.1 ≡ false
    pub valid : IsValid serialized_len cfg r.1
    pub kept : stream r.1 ≡ stream b

  module _ (test : Batcher → Bool)
      (needs : (c : Batcher) → test c ≡ true → is_empty c.buffer ≡ false)
      (usable : IsUsable serialized_len cfg) where
    stopped-Completes :
        (b : Batcher)
        → IsValid serialized_len cfg b
        → test b ≡ false
        → Completes test b (BatchResult.done, b)
    stopped-Completes b v h = record { ended = refl; stopped = h; valid = v; kept = refl }

    send_while-Completes :
        (fuel : ℕ) (b : Batcher)
        → length b.buffer ≤ fuel
        → IsValid serialized_len cfg b
        → Completes test b (send_while serialized_len cfg test fuel b)
    unfolding send_while
    send_while-Completes zero b enough v = elim (Bool-cases (test b)) [
      | inl more ↦
          let (e, rest, is) = cons_of_nonempty b.buffer (needs b more) in
          let l : length b.buffer ≡ suc (length rest) = ap length is in absurd (omega (arith, l))
      | inr stop ↦ rw stop (stopped-Completes b v stop)
    ]
    send_while-Completes (suc fuel) b enough v = elim (Bool-cases (test b)) [
      | inl more ↦
          let (e, rest, is) = cons_of_nonempty b.buffer (needs b more) in
          let round = send_prefix-Rounds serialized_len cfg b e rest usable v is in
          let next = (send_prefix_with_retry serialized_len cfg b).1 in
          let later =
            send_while-Completes fuel next (let s = round.shorter in omega (arith, s))
              round.valid in
          rw (more, on_done-done _ next (send_while serialized_len cfg test fuel) round.ended)
            (record {
              ended = later.ended;
              stopped = later.stopped;
              valid = later.valid;
              kept = later.kept ∙ round.kept;
            })
      | inr stop ↦ rw stop (stopped-Completes b v stop)
    ]

  should_flush-nonempty :
      (c : Batcher) → should_flush_now serialized_len cfg c ≡ true → is_empty c.buffer ≡ false
  unfolding should_flush_now
  should_flush-nonempty c h = ground arith

  -- Whatever the sink refuses before it accepts, `flush_ready` ends: the buffer then needs no
  -- flush, every batch that was sent is within its limits, and what is delivered and what is
  -- buffered is, in order, what it was.
  pub flush_ready-Completes :
      (b : Batcher)
      → IsUsable serialized_len cfg
      → IsValid serialized_len cfg b
      → Completes (should_flush_now serialized_len cfg) b (flush_ready serialized_len cfg b)
  unfolding flush_ready
  flush_ready-Completes b usable v =
      send_while-Completes (should_flush_now serialized_len cfg) should_flush-nonempty usable
        (length b.buffer) b (omega arith) v

  flush-Completes :
      (b : Batcher)
      → IsUsable serialized_len cfg
      → IsValid serialized_len cfg b
      → Completes (λ c. not (is_empty c.buffer)) b (flush serialized_len cfg b)
  unfolding flush
  flush-Completes b usable v =
      send_while-Completes (λ c. not (is_empty c.buffer)) (λ c h. ground arith) usable
        (length b.buffer) b (omega arith) v

  -- The events that `run` has taken are all delivered, in batches.
  pub record Delivers (events : List MatchEvent) (b : Batcher) (r : BatchResult × Batcher)
      : Type 0 where
    pub ended : r.0 ≡ BatchResult.done
    pub delivered : concat r.1.sent ≡ stream b ++ events
    pub batches : AreBatches serialized_len cfg r.1.sent

  enqueued :
      (e : MatchEvent) (b : Batcher)
      → fits serialized_len cfg e ≡ true
      → enqueue serialized_len cfg e b
        ≡ (BatchResult.done, record b { buffer = b.buffer ++ (e ∷ []) })
  unfolding enqueue
  enqueued e b h = ground arith

  push-Completes :
      (e : MatchEvent) (b : Batcher)
      → IsUsable serialized_len cfg
      → IsValid serialized_len cfg b
      → fits serialized_len cfg e ≡ true
      → Completes
          (should_flush_now serialized_len cfg)
          (record b { buffer = b.buffer ++ (e ∷ []) })
          (push serialized_len cfg e b)
  unfolding push
  push-Completes e b usable v h = rw (enqueued e b h) (
      flush_ready-Completes (record b { buffer = b.buffer ++ (e ∷ []) }) usable
        (record {
          fit = all-snoc (fits serialized_len cfg) b.buffer e v.fit h;
          batches = v.batches;
        }))

  flushed-Delivers :
      (b : Batcher) (r : BatchResult × Batcher)
      → Completes (λ c. not (is_empty c.buffer)) b r
      → Delivers [] b r
  flushed-Delivers b r c = record {
    ended = c.ended;
    delivered =
        sym (append-nil (concat r.1.sent))
        ∙ ap (◌++◌ (concat r.1.sent))
            (sym (nil_of_empty r.1.buffer (let s = c.stopped in ground arith)))
        ∙ c.kept
        ∙ sym (append-nil (stream b));
    batches = c.valid.batches;
  }

  later-Delivers :
      (events more : List MatchEvent) (b next : Batcher) (r : BatchResult × Batcher)
      → stream next ≡ stream b ++ events
      → Delivers more next r
      → Delivers (events ++ more) b r
  later-Delivers events more b next r e d = record {
    ended = d.ended;
    delivered = d.delivered ∙ ap (λ l. l ++ more) e ∙ append_assoc (stream b) events more;
    batches = d.batches;
  }

  -- Whatever the sink refuses before it accepts and whenever the deadline passes: if every event
  -- that arrives fits into a batch, `run` ends well when the channel closes, and the sink has then
  -- accepted all buffered and arrived events, each once and in order, in batches that are within
  -- the limits and not empty.
  pub run-Delivers :
      (inputs : List Input) (b : Batcher)
      → IsUsable serialized_len cfg
      → IsValid serialized_len cfg b
      → all (fits serialized_len cfg) (events_of inputs) ≡ true
      → Delivers (events_of inputs) b (run serialized_len cfg inputs b)
  unfolding run
  run-Delivers [] b usable v h = elim (Bool-cases (is_empty b.buffer)) [
    | inl no_event ↦ rw no_event (
        flushed-Delivers b (BatchResult.done, b)
          (record { ended = refl; stopped = ground arith; valid = v; kept = refl }))
    | inr some_event ↦ rw some_event (flushed-Delivers b _ (flush-Completes b usable v))
  ]
  run-Delivers (received e ∷ rest) b usable v h =
      let c = push-Completes e b usable v (ground arith) in
      let next = (push serialized_len cfg e b).1 in
      rw (on_done-done _ next (run serialized_len cfg rest) c.ended) (
        later-Delivers (e ∷ []) (events_of rest) b next _
          (c.kept ∙ sym (append_assoc (concat b.sent) b.buffer (e ∷ [])))
          (run-Delivers rest next usable c.valid (ground arith)))
  run-Delivers (deadline ∷ rest) b usable v h = elim (Bool-cases (is_empty b.buffer)) [
    | inl no_event ↦ rw no_event (run-Delivers rest b usable v h)
    | inr some_event ↦
        let c = flush-Completes b usable v in
        let next = (flush serialized_len cfg b).1 in
        rw (some_event, on_done-done _ next (run serialized_len cfg rest) c.ended)
          (later-Delivers [] (events_of rest) b next _ (c.kept ∙ sym (append-nil (stream b)))
            (run-Delivers rest next usable c.valid h))
  ]
