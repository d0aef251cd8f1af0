-- ===== src/Egress.antt =====
-- src/egress.rs: the sinks for tests and for standard output. The text that crate `serde_json` makes of
-- an event is a parameter, and how each write ends is an input; one that fails may have written a
-- part of its text.
pub mod Sent
use ct_firehose_filter.Prelude.{
  ℕ, ◌+◌, ◌-◌, Bool, true, false, Option, none, some, List, [], ◌∷◌, ◌++◌, take, is_empty, length,
  ltb, if◌then◌else◌, Str,
}
use ct_firehose_filter.Event.{MatchEvent}

pub record RecordingSink : Type 0 where
  pub batches : List (List MatchEvent)
  pub fail_remaining : ℕ

abbrev pub new_recording : RecordingSink
new_recording = record { batches = []; fail_remaining = 0 }

abbrev pub fail_times : ℕ → RecordingSink → RecordingSink
fail_times n s = record s { fail_remaining = n }

abbrev pub total_events : List (List MatchEvent) → ℕ
total_events [] = 0
total_events (b ∷ rest) = length b + total_events rest

-- Whether the batch is accepted.
unfoldable pub record_batch : List MatchEvent → RecordingSink → Bool × RecordingSink
record_batch items s =
    if is_empty items
    then (false, s)
    else if ltb 0 s.fail_remaining
    then (false, record s { fail_remaining = s.fail_remaining - 1 })
    else (true, record s { batches = s.batches ++ (items ∷ []) })

-- How a write or a flush ends: it is done, or it fails when so many characters are written.
pub data WriteEnding : Type 0 where
  whole : WriteEnding
  torn : ℕ → WriteEnding

-- Standard output with its buffer: the text that it has taken, and how the writes to come end;
-- after the last ending they succeed.
pub record Stdout : Type 0 where
  pub text : Str
  pub writes : List WriteEnding

abbrev pub next_write : List WriteEnding → WriteEnding
next_write [] = WriteEnding.whole
next_write (e ∷ rest) = e

abbrev pub later_writes : List WriteEnding → List WriteEnding
later_writes [] = []
later_writes (e ∷ rest) = rest

abbrev pub is_whole : WriteEnding → Bool
is_whole WriteEnding.whole = true
is_whole (WriteEnding.torn n) = false

abbrev pub written : Str → WriteEnding → Stdout → Bool × Stdout
written text WriteEnding.whole s = (true, record s { text = s.text ++ text })
written text (WriteEnding.torn n) s = (false, record s { text = s.text ++ take n text })

-- `Write::write_all`
abbrev pub write_all : Str → Stdout → Bool × Stdout
write_all text s = written text (next_write s.writes) (record s { writes = later_writes s.writes })

abbrev pub flush_out : Stdout → Bool × Stdout
flush_out s = (is_whole (next_write s.writes), record s { writes = later_writes s.writes })

abbrev pub go_on : Bool × Stdout → (Stdout → Bool × Stdout) → Bool × Stdout
go_on (false, s) next = (false, s)
go_on (true, s) next = next s

module _ (to_json : MatchEvent → Str × Bool) where
  -- `serde_json::to_writer`: the text that the serializer makes, and whether it comes to its end.
  abbrev pub to_writer : MatchEvent → Stdout → Bool × Stdout
  to_writer item s = go_on (write_all (to_json item).0 s) (λ s. ((to_json item).1, s))

  unfoldable pub write_item : MatchEvent → Stdout → Bool × Stdout
  write_item item s = go_on (to_writer item s) (write_all (b'\n' ∷ []))

  unfoldable pub write_items : List MatchEvent → Stdout → Bool × Stdout
  unfolding write_item
  write_items [] s = flush_out s
  write_items (item ∷ rest) s = go_on (write_item item s) (write_items rest)

  -- `StdoutSink::send_batch`
  unfoldable pub stdout_batch : List MatchEvent → Stdout → Bool × Stdout
  unfolding write_items
  stdout_batch items s = if is_empty items then (false, s) else write_items items s
