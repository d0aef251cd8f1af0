-- ===== src/Tests/Ingress.antt =====
-- src/ingress.rs on small inputs.
use ct_firehose_filter.Prelude.{true, false, none, List, [], ◌∷◌, codes, arith}
use ct_firehose_filter.Ingress.{
  default_reconnect, Round, reconnects, stopped_before, IngressState, run_ingress, Message, text,
  binary, ping, ping_due, close, DrainState, drain,
}
use ct_firehose_filter.Ingress.Backoff.{Pauses, run_ingress-Pauses}
use ct_firehose_filter.Ingress.Order.{Forwards, payloads, drain-Forwards}

abbrev rounds : List Round
rounds = reconnects 7 ∷ reconnects 100 ∷ stopped_before ∷ []

abbrev fresh : IngressState
fresh = record { delay = 2000; pauses = []; metrics = none }

run_ingress-Pauses_example : Pauses 60000 fresh (run_ingress default_reconnect rounds fresh)
run_ingress-Pauses_example =
    run_ingress-Pauses default_reconnect rounds fresh (omega arith) (omega arith) (omega arith)

abbrev messages : List Message
messages =
    text (codes "a")
    ∷ ping (codes "p")
    ∷ binary (codes "b")
    ∷ ping_due
    ∷ text (codes "c")
    ∷ close
    ∷ []

abbrev connected : DrainState
connected = record {
  forwarded = [];
  pongs = [];
  pings = 0;
  sends = record { to_channel = true ∷ true ∷ false ∷ []; to_socket = [] };
}

drain-Forwards_example : Forwards (payloads messages) connected (drain messages connected).1
drain-Forwards_example = drain-Forwards messages connected
