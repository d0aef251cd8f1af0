-- ===== src/Pipeline/Delivery.antt =====
-- src/pipeline.rs and src/batch.rs: from the frames to the sink.
use ct_firehose_filter.Prelude.{
  ℕ, ◌≡◌, refl, sym, ◌∙◌, ap, Bool, true, false, Option, List, [], ◌∷◌, ◌++◌, map, map-append,
  append_assoc, append-nil, arith, if◌then◌else◌, Str, all,
}
use ct_firehose_filter.Event.{MatchEvent}
use ct_firehose_filter.Metrics.{fetch_add}
use ct_firehose_filter.Parse.Frame.{
  Json, LeafDomains, Frame, failed, skipped, got, parse_certstream_frame, frame_meta,
}
use ct_firehose_filter.Watchlist.Matching.{inspect_outcome-eq-inspect_spec}
use ct_firehose_filter.Watchlist.Hot.{HotWatchlist, inspect_hot}
use ct_firehose_filter.Pipeline.{
  PipelineState, handle_parsed, handle_frame, while_going, handle_frames,
}
use ct_firehose_filter.Pipeline.Frames.{
  IsAccounted, IsPending, outcome-IsAccounted, inspect_hot-IsClear, match_of, event_of, Queues,
  outcome-Queues, nothing-Queues,
}
use ct_firehose_filter.Batch.Batcher.{BatchConfig, Batcher, Input, run}
use ct_firehose_filter.Batch.Prefix.{fits}
use ct_firehose_filter.Batch.Delivery.{concat, stream, IsValid, IsUsable}
use ct_firehose_filter.Batch.Run.{events_of, run-Delivers}

parsed-IsAccounted :
    (has_archive : Bool) (hot : HotWatchlist) (f : Frame LeafDomains) (s : PipelineState)
    → IsPending s
    → (handle_parsed has_archive hot f s).0 ≡ true
    → IsAccounted (handle_parsed has_archive hot f s).1
unfolding handle_parsed fetch_add
parsed-IsAccounted has_archive hot skipped s p h = omega arith
parsed-IsAccounted has_archive hot (failed e) s p h = omega arith
parsed-IsAccounted has_archive hot (got leaf) s p h =
    let o = inspect_hot hot leaf.domains (frame_meta leaf) in
    outcome-IsAccounted has_archive leaf.domains o.event o.fully_suppressed s
      (inspect_hot-IsClear hot leaf.domains (frame_meta leaf)) p h

parsed-Queues :
    (has_archive : Bool) (hot : HotWatchlist) (f : Frame LeafDomains) (s : PipelineState)
    → (handle_parsed has_archive hot f s).0 ≡ true
    → Queues has_archive (match_of hot.inner f) s (handle_parsed has_archive hot f s).1
unfolding handle_parsed inspect_hot
parsed-Queues has_archive hot skipped s h = nothing-Queues has_archive s _ refl refl
parsed-Queues has_archive hot (failed e) s h = nothing-Queues has_archive s _ refl refl
parsed-Queues has_archive hot (got leaf) s h =
    rw (← inspect_outcome-eq-inspect_spec hot.inner leaf.domains (frame_meta leaf))
      (outcome-Queues has_archive leaf.domains _ _ s h)

abbrev kept_if : Bool → List (MatchEvent × List Str) → List (MatchEvent × List Str)
kept_if has_archive ms = if has_archive then ms else []

kept_if-append :
    (has_archive : Bool) (old ms ns : List (MatchEvent × List Str))
    → (old ++ kept_if has_archive ms) ++ kept_if has_archive ns
      ≡ old ++ kept_if has_archive (ms ++ ns)
kept_if-append true old ms ns = append_assoc old ms ns
kept_if-append false old ms ns = append-nil (old ++ [])

Queues-append :
    (has_archive : Bool) (ms ns : List (MatchEvent × List Str)) (s t u : PipelineState)
    → Queues has_archive ms s t
    → Queues has_archive ns t u
    → Queues has_archive (ms ++ ns) s u
Queues-append has_archive ms ns s t u p q = record {
  queued =
      q.queued
      ∙ ap (λ l. l ++ map event_of ns) p.queued
      ∙ append_assoc s.queue (map event_of ms) (map event_of ns)
      ∙ ap (◌++◌ s.queue) (sym (map-append event_of ms ns));
  recorded =
      q.recorded
      ∙ ap (λ l. l ++ kept_if has_archive ns) p.recorded
      ∙ kept_if-append has_archive s.archived ms ns;
}

while_going-true :
    {V O : Type 0} (j : Json V O) (has_archive : Bool) (hot : HotWatchlist)
    (r : Bool × PipelineState) (next : PipelineState → Bool × PipelineState)
    → (while_going j has_archive hot r next).0 ≡ true
    → (r.0 ≡ true) × (while_going j has_archive hot r next ≡ next r.1)
while_going-true j has_archive hot (true, s) next h = (refl, refl)
while_going-true j has_archive hot (false, s) next h = absurd cc

module _ {V O : Type 0} (j : Json V O) (has_archive : Bool) (hot : HotWatchlist) where
  -- The matches of the frames in order: what the matching rule finds in their leaves.
  abbrev pub matches_of : List (List ℕ) → List (MatchEvent × List Str)
  matches_of [] = []
  matches_of (bytes ∷ rest) = match_of hot.inner (parse_certstream_frame j bytes) ++ matches_of rest

  -- With one watchlist, when the frames counted so far are accounted for, and as long as the loop
  -- goes on, each frame that it has seen is counted as one of ignored,
  -- malformed, suppressed or queued, up to the wrap-around of the counters; the queue has got the
  -- matches of the frames in order, and so has the archive, where there is one.
  pub handle_frames-Queues :
      (frames : List (List ℕ)) (s : PipelineState)
      → IsAccounted s
      → (handle_frames j has_archive hot frames s).0 ≡ true
      → IsAccounted (handle_frames j has_archive hot frames s).1
        × Queues has_archive (matches_of frames) s (handle_frames j has_archive hot frames s).1
  unfolding handle_frames handle_frame fetch_add
  handle_frames-Queues [] s a h = (a, nothing-Queues has_archive s s refl refl)
  handle_frames-Queues (bytes ∷ rest) s a h =
      let (going, same) =
        while_going-true j has_archive hot (handle_frame j has_archive hot bytes s)
          (handle_frames j has_archive hot rest) h in
      let t = (handle_frame j has_archive hot bytes s).1 in
      let counted =
        parsed-IsAccounted has_archive hot (parse_certstream_frame j bytes) _ (omega arith) going in
      let first = parsed-Queues has_archive hot (parse_certstream_frame j bytes) _ going in
      let later = handle_frames-Queues rest t counted (ap (λ r. r.0) (sym same) ∙ h) in
      rw same (
        later.0,
        Queues-append has_archive (match_of hot.inner (parse_certstream_frame j bytes))
            (matches_of rest) s t _ (record { queued = first.queued; recorded = first.recorded })
            later.1,
      )

  -- From the frames to the sink, with one watchlist. The queue and the batcher are empty at the
  -- start, the frames counted so far are accounted for, and the limits of a batch leave room
  -- for an event. If the loop goes on through all frames, the batcher gets what is queued with
  -- deadlines in between, and every match fits into a batch, then whatever the sink refuses
  -- before it accepts, it accepts in the end exactly the matches of the frames, each once and
  -- in the order of the frames.
  pub handle_frames-Delivers :
      (serialized_len : MatchEvent → Option ℕ) (cfg : BatchConfig) (frames : List (List ℕ))
      (s : PipelineState) (b : Batcher) (inputs : List Input)
      → IsUsable serialized_len cfg
      → IsAccounted s
      → s.queue ≡ []
      → b.buffer ≡ []
      → b.sent ≡ []
      → (handle_frames j has_archive hot frames s).0 ≡ true
      → events_of inputs ≡ (handle_frames j has_archive hot frames s).1.queue
      → all (fits serialized_len cfg) (map event_of (matches_of frames)) ≡ true
      → concat (run serialized_len cfg inputs b).1.sent ≡ map event_of (matches_of frames)
  handle_frames-Delivers serialized_len cfg frames s b inputs usable a empty no_buffer no_sent going
        got_all fit =
      let queued = (handle_frames-Queues frames s a going).1.queued in
      let same : events_of inputs ≡ map event_of (matches_of frames) =
        got_all ∙ queued ∙ ap (λ l. l ++ map event_of (matches_of frames)) empty in
      let valid : IsValid serialized_len cfg b = record {
        fit = ap (all (fits serialized_len cfg)) no_buffer;
        batches = rw no_sent tt;
      } in
      let d =
        run-Delivers serialized_len cfg inputs b usable valid
          (ap (all (fits serialized_len cfg)) same ∙ fit) in
      let nothing : stream b ≡ [] = rw (no_sent, no_buffer) refl in
      d.delivered ∙ ap (λ l. l ++ events_of inputs) nothing ∙ same
