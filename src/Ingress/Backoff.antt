-- ===== src/Ingress/Backoff.antt =====
-- src/ingress.rs: the pauses between connections, and the order of the frames.
use ct_firehose_filter.Prelude.{
  ℕ, ◌+◌, ◌-◌, ◌*◌, ◌/◌, ◌%◌, ◌^◌, ◌≤◌, ◌≡◌, refl, sym, ◌∙◌, min, max, List, [], ◌∷◌, ◌++◌,
  append-nil, append_assoc, arith, leb, ltb, Bool-cases, inl, inr,
}
use ct_firehose_filter.Ingress.{
  ReconnectPolicy, next_backoff, with_jitter, Round, stopped_before, closed_during,
  stopped_in_pause, reconnects, IngressState, run_ingress,
}

-- The delay doubles up to its bound, and is never zero.
next_backoff_lem :
    (current most : ℕ)
    → 1 ≤ most
    → most ≤ 2 ^ 64
    → 1 ≤ current
    → next_backoff current most ≡ min (current * 2) most
unfolding next_backoff
next_backoff_lem current most m h c = omega arith

jitter_range :
    (seed span half current : ℕ)
    → half + span ≡ current
    → 1 ≤ half
    → (half ≤ max (seed % (span + 1) + half) 1)
      × (1 ≤ max (seed % (span + 1) + half) 1)
      × (max (seed % (span + 1) + half) 1 ≤ current)
jitter_range seed span half current e h = grind arith

with_jitter_bounds :
    (seed current : ℕ)
    → 1 ≤ current
    → (current / 2 ≤ with_jitter seed current)
      × (1 ≤ with_jitter seed current)
      × (with_jitter seed current ≤ current)
unfolding with_jitter
with_jitter_bounds seed current h = elim (Bool-cases (ltb (2 ^ 64 - 1) current)) [
  | inl huge ↦ rw huge (omega arith)
  | inr fits ↦ elim (Bool-cases (leb current 1)) [
    | inl tiny ↦ rw (fits, tiny) (omega arith)
    | inr more ↦
        let big : 2 ≤ current = ground arith in
        rw (fits, more)
          (jitter_range seed (current - current / 2) (current / 2) current (omega arith)
            (omega (arith, big)))
  ]
]

-- Pauses of which each lies between half of its delay and the delay, and which double up to `most`.
abbrev pub ArePaced : ℕ → ℕ → List ℕ → Type 0
ArePaced most delay [] = Unit {0}
ArePaced most delay (p ∷ rest) =
    (delay / 2 ≤ p) × (1 ≤ p) × (p ≤ delay) × ArePaced most (min (delay * 2) most) rest

pub record Pauses (most : ℕ) (s t : IngressState) : Type 0 where
  pub more : List ℕ
  pub taken : t.pauses ≡ s.pauses ++ more
  pub paced : ArePaced most s.delay more

no_more : (most : ℕ) (s t : IngressState) → t.pauses ≡ s.pauses → Pauses most s t
no_more most s t e = record { more = []; taken = e ∙ sym (append-nil s.pauses); paced = tt }

-- For a bound from 1 to 2 ^ 64 milliseconds and a first delay that is not zero: however often the
-- connection ends, each pause before the next lies between half of a delay and the delay, and the
-- delays start at the first one and double up to the bound.
pub run_ingress-Pauses :
    (policy : ReconnectPolicy) (rounds : List Round) (s : IngressState)
    → 1 ≤ policy.most
    → policy.most ≤ 2 ^ 64
    → 1 ≤ s.delay
    → Pauses policy.most s (run_ingress policy rounds s)
unfolding run_ingress
run_ingress-Pauses policy [] s m h d = no_more policy.most s s refl
run_ingress-Pauses policy (stopped_before ∷ rest) s m h d = no_more policy.most s s refl
run_ingress-Pauses policy (closed_during ∷ rest) s m h d = no_more policy.most s s refl
run_ingress-Pauses policy (stopped_in_pause ∷ rest) s m h d = no_more policy.most s _ refl
run_ingress-Pauses policy (reconnects seed ∷ rest) s m h d =
    let next = next_backoff_lem s.delay policy.most m h d in
    let later = run_ingress-Pauses policy rest _ m h (omega (arith, next)) in
    let bounds = with_jitter_bounds seed s.delay d in
    record {
      more = with_jitter seed s.delay ∷ later.more;
      taken = later.taken ∙ append_assoc s.pauses (with_jitter seed s.delay ∷ []) later.more;
      paced = (bounds.0, bounds.1, bounds.2, rw (← next) later.paced);
    }
