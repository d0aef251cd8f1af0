-- ===== src/Pipeline/Frames.antt =====
-- src/pipeline.rs: what becomes of a sequence of frames.
use ct_firehose_filter.Prelude.{
  ◌+◌, ◌%◌, ◌^◌, ◌≡◌, refl, sym, ◌∙◌, Bool, true, false, Option, none, some, List, [], ◌∷◌, ◌++◌,
  map, append-nil, arith, if◌then◌else◌, Str, is_some,
}
use ct_firehose_filter.Event.{MatchEvent, FrameMeta}
use ct_firehose_filter.Metrics.{fetch_add}
use ct_firehose_filter.Parse.Frame.{LeafDomains, Frame, failed, skipped, got, frame_meta}
use ct_firehose_filter.Watchlist.Names.{DomainWatchlist}
use ct_firehose_filter.Watchlist.Inspect.{InspectOutcome}
use ct_firehose_filter.Watchlist.Matching.{inspect_spec, inspect_outcome-eq-inspect_spec}
use ct_firehose_filter.Watchlist.Hot.{HotWatchlist, inspect_hot}
use ct_firehose_filter.Pipeline.{PipelineState, SendAnswer, send_answered, handle_outcome}

-- No event comes with a full suppression.
abbrev pub IsClear : InspectOutcome → Type 0
IsClear o = is_some o.event ≡ true → o.fully_suppressed ≡ false

inspect_spec-IsClear :
    (w : DomainWatchlist) (domains : List Str) (meta : FrameMeta)
    → IsClear (inspect_spec w domains meta)
inspect_spec-IsClear w domains meta h = ground arith

pub inspect_hot-IsClear :
    (hot : HotWatchlist) (domains : List Str) (meta : FrameMeta)
    → IsClear (inspect_hot hot domains meta)
unfolding inspect_hot
inspect_hot-IsClear hot domains meta =
    rw inspect_outcome-eq-inspect_spec (inspect_spec-IsClear hot.inner domains meta)

-- Each frame that was seen is ignored, malformed, suppressed or queued.
abbrev pub IsAccounted : PipelineState → Type 0
IsAccounted s =
    (s.metrics.frames_ignored + s.metrics.frames_malformed + s.metrics.matches_suppressed
        + s.metrics.matches_enqueued)
      % 2 ^ 64
    ≡ s.metrics.frames_seen % 2 ^ 64

-- The frame in hand is seen and not yet accounted for.
abbrev pub IsPending : PipelineState → Type 0
IsPending s =
    (s.metrics.frames_ignored + s.metrics.frames_malformed + s.metrics.matches_suppressed
        + s.metrics.matches_enqueued + 1)
      % 2 ^ 64
    ≡ s.metrics.frames_seen % 2 ^ 64

send_answered-IsAccounted :
    (e : MatchEvent) (a : SendAnswer) (s : PipelineState)
    → IsPending s
    → (send_answered e a s).0 ≡ true
    → IsAccounted (send_answered e a s).1
unfolding fetch_add
send_answered-IsAccounted e SendAnswer.room s p h = omega arith
send_answered-IsAccounted e SendAnswer.full_then_room s p h = omega arith
send_answered-IsAccounted e SendAnswer.full_then_stop s p h = absurd cc
send_answered-IsAccounted e SendAnswer.closed s p h = absurd cc

pub outcome-IsAccounted :
    (has_archive : Bool) (domains : List Str) (event : Option MatchEvent) (fully_suppressed : Bool)
    (s : PipelineState)
    → (is_some event ≡ true → fully_suppressed ≡ false)
    → IsPending s
    → (handle_outcome has_archive domains event fully_suppressed s).0 ≡ true
    → IsAccounted (handle_outcome has_archive domains event fully_suppressed s).1
unfolding handle_outcome fetch_add
outcome-IsAccounted true domains (some event) false s clear p h =
    send_answered-IsAccounted event _ _ p h
outcome-IsAccounted false domains (some event) false s clear p h =
    send_answered-IsAccounted event _ _ p h
outcome-IsAccounted has_archive domains (some event) true s clear p h =
    let no : true ≡ false = clear refl in absurd cc
outcome-IsAccounted has_archive domains none true s clear p h = omega arith
outcome-IsAccounted has_archive domains none false s clear p h = omega arith

-- What the matching rule finds in a parsed frame, with the names of its leaf.
abbrev pub with_names : List Str → Option MatchEvent → List (MatchEvent × List Str)
with_names domains none = []
with_names domains (some event) = (event, domains) ∷ []

abbrev pub match_of : DomainWatchlist → Frame LeafDomains → List (MatchEvent × List Str)
match_of w (failed e) = []
match_of w skipped = []
match_of w (got leaf) =
    with_names leaf.domains (inspect_spec w leaf.domains (frame_meta leaf)).event

abbrev pub event_of : MatchEvent × List Str → MatchEvent
event_of m = m.0

-- The matches are queued in order, and recorded if there is an archive.
pub record Queues (has_archive : Bool) (ms : List (MatchEvent × List Str)) (s t : PipelineState)
    : Type 0 where
  pub queued : t.queue ≡ s.queue ++ map event_of ms
  pub recorded : t.archived ≡ s.archived ++ (if has_archive then ms else [])

send_answered-Queues :
    (e : MatchEvent) (a : SendAnswer) (s : PipelineState)
    → (send_answered e a s).0 ≡ true
    → ((send_answered e a s).1.queue ≡ s.queue ++ (e ∷ []))
      × ((send_answered e a s).1.archived ≡ s.archived)
send_answered-Queues e SendAnswer.room s h = (refl, refl)
send_answered-Queues e SendAnswer.full_then_room s h = (refl, refl)
send_answered-Queues e SendAnswer.full_then_stop s h = absurd cc
send_answered-Queues e SendAnswer.closed s h = absurd cc

pub nothing-Queues :
    (has_archive : Bool) (s t : PipelineState)
    → t.queue ≡ s.queue
    → t.archived ≡ s.archived
    → Queues has_archive [] s t
nothing-Queues true s t q a = record {
  queued = q ∙ sym (append-nil s.queue);
  recorded = a ∙ sym (append-nil s.archived);
}
nothing-Queues false s t q a = record {
  queued = q ∙ sym (append-nil s.queue);
  recorded = a ∙ sym (append-nil s.archived);
}

pub outcome-Queues :
    (has_archive : Bool) (domains : List Str) (event : Option MatchEvent) (fully_suppressed : Bool)
    (s : PipelineState)
    → (handle_outcome has_archive domains event fully_suppressed s).0 ≡ true
    → Queues has_archive
        (with_names domains event)
        s
        (handle_outcome has_archive domains event fully_suppressed s).1
unfolding handle_outcome
outcome-Queues true domains (some event) true s h =
    let q = send_answered-Queues event _ _ h in record { queued = q.0; recorded = q.1 }
outcome-Queues true domains (some event) false s h =
    let q = send_answered-Queues event _ _ h in record { queued = q.0; recorded = q.1 }
outcome-Queues false domains (some event) true s h =
    let q = send_answered-Queues event _ _ h in
    record { queued = q.0; recorded = q.1 ∙ sym (append-nil s.archived) }
outcome-Queues false domains (some event) false s h =
    let q = send_answered-Queues event _ _ h in
    record { queued = q.0; recorded = q.1 ∙ sym (append-nil s.archived) }
outcome-Queues has_archive domains none true s h = nothing-Queues has_archive s _ refl refl
outcome-Queues has_archive domains none false s h = nothing-Queues has_archive s _ refl refl
