-- ===== src/Queue/Store.antt =====
-- daemon-go/state/queued_deliveries.go. The table is the list of its rows, kept in the order of
-- (created_at, delivery_id), which the queries ask for. `le` is the database's order of texts and
-- `format_iso` Go's format of a time; the code stores JSON columns that it wrote itself, and reads them
-- back as they were. Of the database's failures only a repeated primary key is modelled.
use repowire.Prelude.{
  ℕ, ◌+◌, String, Bool, not, ◌&&◌, ◌||◌, ◌==◌, Option, none, some, List, [], ◌∷◌, ◌++◌, eqb, exists,
  keep, map, take, drop, if◌then◌else◌,
}
use repowire.Json.{Fields, end}

-- `DeliveryKind`, any text in the database
pub data DeliveryKind : Type 0 where
  ask notify : DeliveryKind
  other_kind : String → DeliveryKind

pub record QueuedDelivery : Type 0 where
  pub delivery_id : String
  pub peer_id : String
  pub repowire_session_id : Option String
  pub kind : DeliveryKind
  pub from_peer_id : Option String
  pub from_peer_name : String
  pub to_peer_name : String
  pub correlation_id : Option String
  pub text : String
  pub created_at : String
  pub expires_at : String
  pub attachments : Option (List Fields)
  pub metadata : Option Fields

abbrev pub Table : Type 0
Table = List QueuedDelivery

-- `EnqueueDelivery` returns nothing when the queue is disabled, an error, or the stored row.
pub data Enqueued : Type 0 where
  disabled constraint_failed : Enqueued
  queued : QueuedDelivery → Enqueued

abbrev pub has_id : String → QueuedDelivery → Bool
has_id id row = row.delivery_id == id

abbrev pub of_peer : String → QueuedDelivery → Bool
of_peer peer row = row.peer_id == peer

abbrev pub id_of : QueuedDelivery → String
id_of row = row.delivery_id

-- `DELETE … WHERE delivery_id = ?`, for one id and for each of a list
unfoldable pub delete_row : String → Table → Table
delete_row id t = keep (λ row. not (has_id id row)) t

unfoldable pub delete_rows : List String → Table → Table
unfolding delete_row
delete_rows [] t = t
delete_rows (id ∷ ids) t = delete_rows ids (delete_row id t)

abbrev pub rows_reversed : Table → Table
rows_reversed [] = []
rows_reversed (row ∷ t) = rows_reversed t ++ row ∷ []

-- `enforceCapTx`: of the peer's rows, newest first, all but the first `most` go.
unfoldable pub enforce_cap : String → ℕ → Table → Table
unfolding delete_rows
enforce_cap peer most t =
    delete_rows (map id_of (drop most (rows_reversed (keep (of_peer peer) t)))) t

abbrev pub list_or : Option (List Fields) → List Fields
list_or none = []
list_or (some xs) = xs

abbrev pub object_or : Option Fields → Fields
object_or none = end
object_or (some m) = m

module _ (le : String → String → Bool) where
  -- ORDER BY created_at, delivery_id
  abbrev pub row_le : QueuedDelivery → QueuedDelivery → Bool
  row_le a b =
      le a.created_at b.created_at
      && (not (le b.created_at a.created_at) || le a.delivery_id b.delivery_id)

  unfoldable pub insert_row : QueuedDelivery → Table → Table
  insert_row new [] = new ∷ []
  insert_row new (row ∷ t) =
      let rest = insert_row new t in if row_le row new then row ∷ rest else new ∷ row ∷ t

  -- `expires_at > cutoff`
  abbrev pub is_live : String → QueuedDelivery → Bool
  is_live cutoff row = not (le row.expires_at cutoff)

  -- `deleteExpiredTx`
  unfoldable pub delete_expired : String → Table → Table
  delete_expired cutoff t = keep (is_live cutoff) t

  -- `selectForPeerTx`
  unfoldable pub select_for_peer : String → String → ℕ → Table → List QueuedDelivery
  select_for_peer peer cutoff limit t =
      take limit (keep (λ row. of_peer peer row && is_live cutoff row) t)

  module _ (format_iso : ℕ → String) where
    -- The row that is stored: `token` is the minted id, `ttl` the time to live in nanoseconds.
    abbrev pub stamped : String → ℕ → ℕ → QueuedDelivery → QueuedDelivery
    stamped token ttl now d = record d {
      delivery_id = token;
      created_at = format_iso now;
      expires_at = format_iso (now + ttl);
      attachments = some (list_or d.attachments);
      metadata = some (object_or d.metadata);
    }

    -- The transaction's statements; a repeated key rolls it back.
    unfoldable pub store_row : ℕ → QueuedDelivery → Table → Enqueued × Table
    unfolding delete_expired insert_row enforce_cap
    store_row most row t =
        let live = delete_expired row.created_at t in
        if exists (has_id row.delivery_id) live
        then (constraint_failed, t)
        else (queued row, enforce_cap row.peer_id most (insert_row row live))

    -- `EnqueueDelivery`
    unfoldable pub enqueue_delivery : String → ℕ → ℕ → ℕ → QueuedDelivery → Table → Enqueued × Table
    unfolding store_row
    enqueue_delivery token ttl most now d t =
        if eqb most 0 || eqb ttl 0
        then (disabled, t)
        else store_row most (stamped token ttl now d) t

    -- `DrainDeliveries`
    unfoldable pub drain_deliveries : String → ℕ → ℕ → Table → List QueuedDelivery × Table
    unfolding delete_expired select_for_peer delete_rows
    drain_deliveries peer limit now t =
        let live = delete_expired (format_iso now) t in
        let out = select_for_peer peer (format_iso now) limit live in
        if eqb limit 0 then ([], t) else (out, delete_rows (map id_of out) live)

    -- `ListDeliveries`
    unfoldable pub list_deliveries : String → ℕ → ℕ → Table → List QueuedDelivery × Table
    unfolding delete_expired select_for_peer
    list_deliveries peer limit now t =
        let live = delete_expired (format_iso now) t in
        if eqb limit 0 then ([], t) else (select_for_peer peer (format_iso now) limit live, live)

-- `DeleteDelivery`: whether a row went.
unfoldable pub delete_delivery : String → Table → Bool × Table
unfolding delete_row
delete_delivery id t = (exists (has_id id) t, delete_row id t)
