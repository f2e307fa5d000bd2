-- ===== src/Queue/Tests.antt =====
-- A small queue, and the theorems of this component at it.
use repowire.Prelude.{String, Bool, refl, List, [], ◌∷◌, none, ◌==◌, arith}
use repowire.Samples.{tally, by_length, by_length-total, by_length-trans}
use repowire.Queue.Store.{
  QueuedDelivery, Table, notify, stamped, enqueue_delivery, drain_deliveries,
}
use repowire.Queue.Order.{WellFormed}
use repowire.Queue.View.{Enqueuing, Draining, enqueue_delivery_lem, drain_deliveries_lem}
use repowire.Queue.History.{TimedOp, enqueue, drain, Bounded, perform_all, perform_all-Bounded}

abbrev a_note : String → QueuedDelivery
a_note text = record {
  delivery_id = "";
  peer_id = "p1";
  repowire_session_id = none;
  kind = notify;
  from_peer_id = none;
  from_peer_name = "api";
  to_peer_name = "web";
  correlation_id = none;
  text = text;
  created_at = "";
  expires_at = "";
  attachments = none;
  metadata = none;
}

-- Two notes of one peer.
abbrev two_notes : Table
two_notes =
    stamped by_length tally "qd-1" 10 1 (a_note "one")
    ∷ stamped by_length tally "qd-2" 10 2 (a_note "two")
    ∷ []

two_notes-WellFormed : WellFormed by_length two_notes
two_notes-WellFormed = (((refl, tt), (tt, tt)), (refl, (refl, tt)))

enqueue_delivery_lem_example :
    Enqueuing by_length by_length-total by_length-trans 2
      (stamped by_length tally "qd-3" 10 3 (a_note "three"))
      "p1"
      two_notes
      (enqueue_delivery by_length tally "qd-3" 10 2 3 (a_note "three") two_notes)
enqueue_delivery_lem_example =
    enqueue_delivery_lem by_length by_length-total by_length-trans tally "qd-3" 10 2 3
      (a_note "three") "p1" two_notes two_notes-WellFormed

drain_deliveries_lem_example :
    Draining by_length by_length-total by_length-trans "p1" 1
      (tally 3)
      "p1"
      two_notes
      (drain_deliveries by_length tally "p1" 1 3 two_notes)
drain_deliveries_lem_example =
    drain_deliveries_lem by_length by_length-total by_length-trans tally "p1" 1 3 "p1" two_notes
      two_notes-WellFormed refl

abbrev first_only : QueuedDelivery → Bool
first_only row = row.delivery_id == "qd-1"

-- Three notes for a queue of two, and a drain.
abbrev an_hour : List TimedOp
an_hour =
    record { now = 1; op = enqueue "qd-1" 10 (a_note "one") }
    ∷ record { now = 2; op = enqueue "qd-2" 10 (a_note "two") }
    ∷ record { now = 3; op = enqueue "qd-3" 10 (a_note "three") }
    ∷ record { now = 4; op = drain "p1" 1 }
    ∷ []

nothing-Bounded : Bounded by_length tally 2 []
nothing-Bounded = ((tt, tt), λ peer. omega arith)

perform_all-Bounded_example : Bounded by_length tally 2 (perform_all by_length tally 2 an_hour [])
perform_all-Bounded_example =
    perform_all-Bounded by_length tally 2 by_length-total by_length-trans an_hour [] nothing-Bounded
