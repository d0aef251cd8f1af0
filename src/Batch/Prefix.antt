-- ===== src/Batch/Prefix.antt =====
-- src/batch.rs: the bounds of `prefix_len`.
use ct_firehose_filter.Prelude.{
  ℕ, suc, ◌+◌, ◌≡◌, ◌≤◌, ◌<◌, refl, ◌∙◌, Bool, true, false, ◌&&◌, Option, none, some, List, [], ◌∷◌,
  arith, max, leb, ltb, length, take, Bool-cases, inl, inr,
}
use ct_firehose_filter.Event.{MatchEvent}
use ct_firehose_filter.Batch.Batcher.{
  BatchConfig, Batcher, usize_max, saturating_add, size_or_max, size_or_zero, total_size,
  prefix_from, prefix_len,
}

module _ (serialized_len : MatchEvent → Option ℕ) (cfg : BatchConfig) where
  -- What `enqueue` lets into the buffer.
  abbrev pub fits : MatchEvent → Bool
  fits e = elim (serialized_len e) [ none ↦ false | some size ↦ leb size cfg.max_bytes ]

  -- The prefix goes `k` events beyond the `n` it has.
  pub record Extends (bytes n : ℕ) (l : List MatchEvent) : Type 0 where
    pub k : ℕ
    pub len : prefix_from serialized_len cfg bytes n l ≡ n + k
    pub within : k ≤ length l
    pub messages : n + k ≤ max n cfg.max_messages
    pub size : bytes + total_size serialized_len cfg (take k l) ≤ cfg.max_bytes

  Extends-nothing :
      (bytes n : ℕ) (l : List MatchEvent)
      → prefix_from serialized_len cfg bytes n l ≡ n
      → bytes ≤ cfg.max_bytes
      → Extends bytes n l
  Extends-nothing bytes n l e h = record {
    k = 0;
    len = omega (arith, e);
    within = omega arith;
    messages = omega arith;
    size = omega (arith, h);
  }

  one_size :
      (e : MatchEvent)
      → size_or_max serialized_len cfg e < usize_max
      → size_or_zero serialized_len cfg e ≡ size_or_max serialized_len cfg e
  one_size e h = by_length (serialized_len e) h
    where
      by_length :
          (o : Option ℕ)
          → (elim o [ none ↦ usize_max | some n ↦ n ]) < usize_max
          → (elim o [ none ↦ 0 | some n ↦ n ]) ≡ (elim o [ none ↦ usize_max | some n ↦ n ])
      by_length none h = absurd (omega arith)
      by_length (some n) h = refl

  -- One event more, after which the prefix extends further.
  Extends-more :
      (bytes n size : ℕ) (e : MatchEvent) (rest : List MatchEvent)
      → size_or_zero serialized_len cfg e ≡ size
      → suc n ≤ cfg.max_messages
      → Extends (bytes + size) (n + 1) rest
      → prefix_from serialized_len cfg bytes n (e ∷ rest)
        ≡ prefix_from serialized_len cfg (bytes + size) (n + 1) rest
      → Extends bytes n (e ∷ rest)
  Extends-more bytes n size e rest own room x step = record {
    k = suc x.k;
    len = step ∙ x.len ∙ omega arith;
    within = omega (arith, x.within);
    messages = omega (arith, x.messages);
    size = omega (arith, x.size, own);
  }

  exact_add :
      (bytes size : ℕ)
      → saturating_add bytes size ≤ cfg.max_bytes
      → cfg.max_bytes < usize_max
      → saturating_add bytes size ≡ bytes + size
  exact_add bytes size h small = omega arith

  pub prefix_from-Extends :
      (bytes n : ℕ) (l : List MatchEvent)
      → cfg.max_bytes < usize_max
      → bytes ≤ cfg.max_bytes
      → (n ≡ 0 → bytes ≡ 0)
      → Extends bytes n l
  unfolding prefix_from
  prefix_from-Extends bytes n [] small h first = Extends-nothing bytes n [] refl h
  prefix_from-Extends bytes n (e ∷ rest) small h first =
      let size = size_or_max serialized_len cfg e in
      let more = saturating_add bytes size in
      elim (Bool-cases (leb cfg.max_messages n)) [
        | inl full ↦ Extends-nothing bytes n (e ∷ rest) (ground arith) h
        | inr room ↦ elim (Bool-cases (ltb cfg.max_bytes size)) [
          | inl large ↦ Extends-nothing bytes n (e ∷ rest) (ground arith) h
          | inr fine ↦ elim (Bool-cases (ltb 0 n && ltb cfg.max_bytes more)) [
            | inl over ↦ Extends-nothing bytes n (e ∷ rest) (ground arith) h
            | inr under ↦
                let fit : more ≤ cfg.max_bytes = ground (arith, first) in
                let exact = exact_add bytes size fit small in
                Extends-more bytes n size e rest (one_size e (ground arith)) (ground arith)
                  (prefix_from-Extends (bytes + size) (n + 1) rest small (ground arith)
                    (λ z. absurd (omega arith)))
                  (ground arith)
          ]
        ]
      ]

  -- The prefix of a buffer is within its bounds: no more events than are buffered and than a batch
  -- may have, and no more bytes than a batch may have.
  pub prefix_len-bounds :
      (b : Batcher)
      → cfg.max_bytes < usize_max
      → (prefix_len serialized_len cfg b ≤ length b.buffer)
        × (prefix_len serialized_len cfg b ≤ cfg.max_messages)
        × (total_size serialized_len cfg (take (prefix_len serialized_len cfg b) b.buffer)
            ≤ cfg.max_bytes)
  unfolding prefix_len
  prefix_len-bounds b small =
      let x = prefix_from-Extends 0 0 b.buffer small (omega arith) (λ z. refl) in
      let e : prefix_from serialized_len cfg 0 0 b.buffer ≡ x.k = x.len ∙ omega arith in
      rw e (x.within, omega (arith, x.messages), omega (arith, x.size))

  fits_size : (e : MatchEvent) → fits e ≡ true → size_or_max serialized_len cfg e ≤ cfg.max_bytes
  fits_size e h = by_length (serialized_len e) h
    where
      by_length :
          (o : Option ℕ)
          → (elim o [ none ↦ false | some size ↦ leb size cfg.max_bytes ]) ≡ true
          → (elim o [ none ↦ usize_max | some n ↦ n ]) ≤ cfg.max_bytes
      by_length none h = absurd (ground arith)
      by_length (some n) h = ground arith

  -- A buffer that begins with an event that fits has a prefix to send.
  pub prefix_len-positive :
      (b : Batcher) (e : MatchEvent) (rest : List MatchEvent)
      → cfg.max_bytes < usize_max
      → 1 ≤ cfg.max_messages
      → b.buffer ≡ e ∷ rest
      → fits e ≡ true
      → 1 ≤ prefix_len serialized_len cfg b
  unfolding prefix_len prefix_from
  prefix_len-positive b e rest small some_room is fit =
      let size = size_or_max serialized_len cfg e in
      let own : size ≤ cfg.max_bytes = fits_size e fit in
      let x =
        prefix_from-Extends (saturating_add 0 size) 1 rest small (omega (arith, own))
          (λ z. absurd (omega arith)) in
      rw is (ground (arith, x.len))
