-- ===== src/Tests/Egress.antt =====
-- src/egress.rs on small inputs.
use ct_firehose_filter.Prelude.{◌≡◌, refl, Bool, true, [], ◌∷◌, Str, codes}
use ct_firehose_filter.Event.{MatchEvent}
use ct_firehose_filter.Egress.{
  WriteEnding, Stdout, new_recording, fail_times, record_batch, stdout_batch, write_items,
  write_item,
}
use ct_firehose_filter.Tests.Data.{pair_event, same_event}

abbrev to_json : MatchEvent → Str × Bool
to_json e = (codes "{}", true)

-- The second line break is not written.
abbrev output : Stdout
output = record {
  text = codes "> ";
  writes = WriteEnding.whole ∷ WriteEnding.whole ∷ WriteEnding.whole ∷ WriteEnding.torn 0 ∷ [];
}

torn_output : (stdout_batch to_json (pair_event ∷ same_event ∷ []) output).1.text ≡ codes "> {}\n{}"
unfolding stdout_batch write_items write_item
torn_output = refl

fails_once : (record_batch (pair_event ∷ []) (fail_times 1 new_recording)).1 ≡ new_recording
unfolding record_batch
fails_once = refl
