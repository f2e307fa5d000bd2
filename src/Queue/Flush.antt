-- ===== src/Queue/Flush.antt =====
-- `flushQueuedDeliveries` of daemon-go/hub/ws.go: the queue is replayed to a peer that connects.
-- `written` says of a row whether its frame goes out before the socket fails.
use repowire.Prelude.{ℕ, String, Bool, Option, none, some, List, [], ◌∷◌, if◌then◌else◌}
use repowire.Json.{Fields}
use repowire.Queue.Store.{
  DeliveryKind, ask, notify, other_kind, QueuedDelivery, Table, list_or, list_deliveries,
  delete_delivery,
}

-- The two frames, with the fields that their maps have.
pub record DeliveryFrame : Type 0 where
  pub type : String
  pub delivery_id : String
  pub from_peer : String
  pub to_peer : String
  pub text : String
  pub correlation_id : Option String
  pub attachments : List Fields

abbrev pub default_queue_max : ℕ
default_queue_max = 50

abbrev pub frame_as : String → Option String → String → QueuedDelivery → DeliveryFrame
frame_as type correlation to_name d = record {
  type = type;
  delivery_id = d.delivery_id;
  from_peer = d.from_peer_name;
  to_peer = to_name;
  text = d.text;
  correlation_id = correlation;
  attachments = list_or d.attachments;
}

unfoldable pub frame_for : String → QueuedDelivery → DeliveryKind → Option DeliveryFrame
frame_for to_name d notify = some (frame_as "notify" none to_name d)
frame_for to_name d ask = some (frame_as "ask" d.correlation_id to_name d)
frame_for to_name d (other_kind k) = none

module _ (written : QueuedDelivery → Bool) where
  -- The loop: a failed write ends it, and a row goes only when its frame is out.
  unfoldable pub flush_rows : String → List QueuedDelivery → Table → List DeliveryFrame × Table
  unfolding frame_for delete_delivery
  flush_rows to_name [] t = ([], t)
  flush_rows to_name (d ∷ ds) t =
      let skipped = flush_rows to_name ds t in
      let later = flush_rows to_name ds (delete_delivery d.delivery_id t).1 in
      elim (frame_for to_name d d.kind) [
        | none ↦ skipped
        | some frame ↦ if written d then (frame ∷ later.0, later.1) else ([], t)
      ]

  -- `flushQueuedDeliveries`
  unfoldable pub flush_queued_deliveries :
      (String → String → Bool)
      → (ℕ → String)
      → ℕ
      → String
      → String
      → Table
      → List DeliveryFrame × Table
  unfolding flush_rows list_deliveries
  flush_queued_deliveries le format_iso now id to_name t =
      let (pending, listed) = list_deliveries le format_iso id default_queue_max now t in
      flush_rows to_name pending listed
