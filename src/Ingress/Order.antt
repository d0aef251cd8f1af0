-- ===== src/Ingress/Order.antt =====
-- src/ingress.rs: the order in which a connection's frames reach the channel.
use ct_firehose_filter.Prelude.{
  ℕ, ◌≡◌, refl, sym, ◌∙◌, ap, true, false, List, [], ◌∷◌, ◌++◌, append-nil, append_assoc,
  Bool-cases, inl, inr,
}
use ct_firehose_filter.Ingress.{
  Message, text, binary, ping, pong, frame, close, ended, failure, ping_due, cancelled, DrainState,
  drain, forward, answer_ping, send_ping, channel_takes, socket_takes, next_ok, later_ok,
}

-- The frames of a connection up to its end.
abbrev pub payloads : List Message → List (List ℕ)
payloads [] = []
payloads (text bytes ∷ rest) = bytes ∷ payloads rest
payloads (binary bytes ∷ rest) = bytes ∷ payloads rest
payloads (ping payload ∷ rest) = payloads rest
payloads (ping_due ∷ rest) = payloads rest
payloads (pong ∷ rest) = payloads rest
payloads (frame ∷ rest) = payloads rest
payloads (close ∷ rest) = []
payloads (ended ∷ rest) = []
payloads (failure ∷ rest) = []
payloads (cancelled ∷ rest) = []

-- A first part of `frames` is forwarded, and all of them if no send fails.
pub record Forwards (frames : List (List ℕ)) (s t : DrainState) : Type 0 where
  pub sent : List (List ℕ)
  pub left : List (List ℕ)
  pub in_order : frames ≡ sent ++ left
  pub forwarded : t.forwarded ≡ s.forwarded ++ sent
  pub whole : s.sends.to_channel ≡ [] → s.sends.to_socket ≡ [] → left ≡ []

module _ (frames : List (List ℕ)) (s t : DrainState) where
  stops-Forwards :
      s.forwarded ≡ t.forwarded
      → (s.sends.to_channel ≡ [] → s.sends.to_socket ≡ [] → frames ≡ [])
      → Forwards frames s t
  stops-Forwards e whole = record {
    sent = [];
    left = frames;
    in_order = refl;
    forwarded = sym e ∙ sym (append-nil s.forwarded);
    whole = whole;
  }

  failed_channel-Forwards : s ≡ t → channel_takes s ≡ false → Forwards frames s t
  failed_channel-Forwards e f =
      stops-Forwards (ap (λ d. d.forwarded) e)
        (λ c _. let takes : next_ok s.sends.to_channel ≡ true = ap next_ok c in absurd cc)

  failed_socket-Forwards : s ≡ t → socket_takes s ≡ false → Forwards frames s t
  failed_socket-Forwards e f =
      stops-Forwards (ap (λ d. d.forwarded) e)
        (λ _ c. let takes : next_ok s.sends.to_socket ≡ true = ap next_ok c in absurd cc)

  forward-Forwards :
      (bytes : List ℕ) → Forwards frames (forward bytes s) t → Forwards (bytes ∷ frames) s t
  forward-Forwards bytes f = record {
    sent = bytes ∷ f.sent;
    left = f.left;
    in_order = ap (λ l. bytes ∷ l) f.in_order;
    forwarded = f.forwarded ∙ append_assoc s.forwarded (bytes ∷ []) f.sent;
    whole = λ c w. f.whole (ap later_ok c) w;
  }

  answer_ping-Forwards :
      (payload : List ℕ) → Forwards frames (answer_ping payload s) t → Forwards frames s t
  answer_ping-Forwards payload f = record {
    sent = f.sent;
    left = f.left;
    in_order = f.in_order;
    forwarded = f.forwarded;
    whole = λ c w. f.whole c (ap later_ok w);
  }

  send_ping-Forwards : Forwards frames (send_ping s) t → Forwards frames s t
  send_ping-Forwards f = record {
    sent = f.sent;
    left = f.left;
    in_order = f.in_order;
    forwarded = f.forwarded;
    whole = λ c w. f.whole c (ap later_ok w);
  }

-- The frames that reach the channel are a first part of the text and binary frames that the
-- connection sent before its end, in their order and once each, and all of them if no send fails.
pub drain-Forwards :
    (messages : List Message) (s : DrainState) → Forwards (payloads messages) s (drain messages s).1
unfolding drain
drain-Forwards [] s = stops-Forwards _ s s refl (λ _ _. refl)
drain-Forwards (text bytes ∷ rest) s = elim (Bool-cases (channel_takes s)) [
  | inl ok ↦ rw ok (forward-Forwards _ s _ bytes (drain-Forwards rest (forward bytes s)))
  | inr stop ↦ rw stop (failed_channel-Forwards _ s s refl stop)
]
drain-Forwards (binary bytes ∷ rest) s = elim (Bool-cases (channel_takes s)) [
  | inl ok ↦ rw ok (forward-Forwards _ s _ bytes (drain-Forwards rest (forward bytes s)))
  | inr stop ↦ rw stop (failed_channel-Forwards _ s s refl stop)
]
drain-Forwards (ping payload ∷ rest) s = elim (Bool-cases (socket_takes s)) [
  | inl ok ↦
      rw ok (answer_ping-Forwards _ s _ payload (drain-Forwards rest (answer_ping payload s)))
  | inr stop ↦ rw stop (failed_socket-Forwards _ s s refl stop)
]
drain-Forwards (ping_due ∷ rest) s = elim (Bool-cases (socket_takes s)) [
  | inl ok ↦ rw ok (send_ping-Forwards _ s _ (drain-Forwards rest (send_ping s)))
  | inr stop ↦ rw stop (failed_socket-Forwards _ s s refl stop)
]
drain-Forwards (pong ∷ rest) s = drain-Forwards rest s
drain-Forwards (frame ∷ rest) s = drain-Forwards rest s
drain-Forwards (close ∷ rest) s = stops-Forwards _ s s refl (λ _ _. refl)
drain-Forwards (ended ∷ rest) s = stops-Forwards _ s s refl (λ _ _. refl)
drain-Forwards (failure ∷ rest) s = stops-Forwards _ s s refl (λ _ _. refl)
drain-Forwards (cancelled ∷ rest) s = stops-Forwards _ s s refl (λ _ _. refl)
