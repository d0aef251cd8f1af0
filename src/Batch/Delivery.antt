-- ===== src/Batch/Delivery.antt =====
-- src/batch.rs: the batcher delivers every event once and in order.
use ct_firehose_filter.Prelude.{
  ℕ, zero, suc, ◌≡◌, ◌≤◌, ◌<◌, refl, sym, ◌∙◌, ap, ap₂, Bool, true, false, Option, List, [], ◌∷◌,
  ◌++◌, arith, leb, length, take, drop, all, append-nil, append_assoc, take-append-drop,
  length-drop,
}
use ct_firehose_filter.Event.{MatchEvent}
use ct_firehose_filter.Batch.Batcher.{
  BatchConfig, Batcher, BatchResult, usize_max, total_size, prefix_len, refused, longer_delay,
  send_until_accepted, send_prefix_with_retry,
}
use ct_firehose_filter.Batch.Prefix.{fits, prefix_len-bounds, prefix_len-positive}

abbrev pub concat : List (List MatchEvent) → List MatchEvent
concat [] = []
concat (l ∷ ls) = l ++ concat ls

concat-snoc :
    (ls : List (List MatchEvent)) (l : List MatchEvent) → concat (ls ++ (l ∷ [])) ≡ concat ls ++ l
concat-snoc [] l = append-nil l
concat-snoc (a ∷ ls) l = ap (◌++◌ a) (concat-snoc ls l) ∙ sym (append_assoc a (concat ls) l)

-- All that was accepted or is buffered, in order.
abbrev pub stream : Batcher → List MatchEvent
stream b = concat b.sent ++ b.buffer

-- What an accepted send of `n` events leaves.
record Sends (n : ℕ) (b after : Batcher) : Type 0 where
  pub buffer : after.buffer ≡ drop n b.buffer
  pub sent : after.sent ≡ b.sent ++ (take n b.buffer ∷ [])

send_until_accepted-Sends :
    (n delay : ℕ) (answers : List Bool) (b : Batcher)
    → Sends n b (send_until_accepted n delay answers b)
unfolding send_until_accepted
send_until_accepted-Sends n delay [] b = record { buffer = refl; sent = refl }
send_until_accepted-Sends n delay (true ∷ rest) b = record { buffer = refl; sent = refl }
send_until_accepted-Sends n delay (false ∷ rest) b =
    let later = send_until_accepted-Sends n (longer_delay delay) rest (refused delay b) in
    record { buffer = later.buffer; sent = later.sent }

Sends-stream : (n : ℕ) (b after : Batcher) → Sends n b after → stream after ≡ stream b
Sends-stream n b after s =
    ap₂ (λ sent buffer. concat sent ++ buffer) s.sent s.buffer
    ∙ ap (λ l. l ++ drop n b.buffer) (concat-snoc b.sent (take n b.buffer))
    ∙ append_assoc (concat b.sent) (take n b.buffer) (drop n b.buffer)
    ∙ ap (◌++◌ (concat b.sent)) (take-append-drop n b.buffer)

all-drop :
    (p : MatchEvent → Bool) (n : ℕ) (l : List MatchEvent) → all p l ≡ true → all p (drop n l) ≡ true
all-drop p zero l h = h
all-drop p (suc n) [] h = h
all-drop p (suc n) (x ∷ l) h = all-drop p n l (ground arith)

length-take : (n : ℕ) (l : List MatchEvent) → n ≤ length l → length (take n l) ≡ n
length-take zero l h = refl
length-take (suc n) [] h = absurd (omega arith)
length-take (suc n) (x ∷ l) h = ap suc (length-take n l (omega arith))

module _ (serialized_len : MatchEvent → Option ℕ) (cfg : BatchConfig) where
  -- A batch as the sink may be given it.
  abbrev pub IsBatch : List MatchEvent → Type 0
  IsBatch l =
      (1 ≤ length l)
      × (length l ≤ cfg.max_messages)
      × (total_size serialized_len cfg l ≤ cfg.max_bytes)

  abbrev pub AreBatches : List (List MatchEvent) → Type 0
  AreBatches [] = Unit {0}
  AreBatches (l ∷ ls) = IsBatch l × AreBatches ls

  AreBatches-snoc :
      (ls : List (List MatchEvent)) (l : List MatchEvent)
      → AreBatches ls
      → IsBatch l
      → AreBatches (ls ++ (l ∷ []))
  AreBatches-snoc [] l a h = (h, tt)
  AreBatches-snoc (x ∷ ls) l a h = (a.0, AreBatches-snoc ls l a.1 h)

  -- Every buffered event fits into a batch, and the sink was given batches only.
  pub record IsValid (b : Batcher) : Type 0 where
    pub fit : all (fits serialized_len cfg) b.buffer ≡ true
    pub batches : AreBatches b.sent

  -- The limits leave room for an event.
  pub record IsUsable : Type 0 where
    pub bytes : cfg.max_bytes < usize_max
    pub messages : 1 ≤ cfg.max_messages

  -- One round of the sending loops.
  pub record Rounds (b : Batcher) (r : BatchResult × Batcher) : Type 0 where
    pub ended : r.0 ≡ BatchResult.done
    pub valid : IsValid r.1
    pub kept : stream r.1 ≡ stream b
    pub shorter : length r.1.buffer < length b.buffer

  sent-Rounds :
      (b after : Batcher) (n : ℕ)
      → IsValid b
      → Sends n b after
      → 1 ≤ n
      → n ≤ length b.buffer
      → n ≤ cfg.max_messages
      → total_size serialized_len cfg (take n b.buffer) ≤ cfg.max_bytes
      → Rounds b (BatchResult.done, after)
  sent-Rounds b after n v s pos_n within messages bytes = record {
    ended = refl;
    valid = record {
      fit = rw s.buffer (all-drop (fits serialized_len cfg) n b.buffer v.fit);
      batches = rw s.sent (
          AreBatches-snoc b.sent (take n b.buffer) v.batches
            (let e = length-take n b.buffer within in (omega (arith, e), omega (arith, e), bytes)));
    };
    kept = Sends-stream n b after s;
    shorter = rw s.buffer (let e = length-drop n b.buffer in omega (arith, e));
  }

  pub send_prefix-Rounds :
      (b : Batcher) (e : MatchEvent) (rest : List MatchEvent)
      → IsUsable
      → IsValid b
      → b.buffer ≡ e ∷ rest
      → Rounds b (send_prefix_with_retry serialized_len cfg b)
  unfolding send_prefix_with_retry
  send_prefix-Rounds b e rest usable v is =
      let n = prefix_len serialized_len cfg b in
      let fit : fits serialized_len cfg e ≡ true =
        (let f : all (fits serialized_len cfg) (e ∷ rest) ≡ true =
            ap (all (fits serialized_len cfg)) (sym is) ∙ v.fit in
          ground arith) in
      let pos_n =
        prefix_len-positive serialized_len cfg b e rest usable.bytes usable.messages is fit in
      let bounds = prefix_len-bounds serialized_len cfg b usable.bytes in
      let go : leb 1 n ≡ true = ground arith in
      rw go (
        sent-Rounds b (send_until_accepted n 10 b.answers b) n v
          (send_until_accepted-Sends n 10 b.answers b) pos_n bounds.0 bounds.1 bounds.2)
