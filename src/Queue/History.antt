-- ===== src/Queue/History.antt =====
-- Histories of the durable queue: each call is one transaction.
use repowire.Prelude.{
  IsTotal, IsTransitive, ℕ, ◌-◌, ◌≤◌, String, Bool, true, false, not, ◌==◌, sym, List, [], ◌∷◌,
  Bool-cases, inl, inr, keep, length, length-keep, drop, eqb, if◌then◌else◌, arith, subst,
}
use repowire.Queue.Store.{
  QueuedDelivery, Table, Enqueued, disabled, constraint_failed, queued, has_id, is_live, stamped,
  delete_row, delete_expired, enqueue_delivery, drain_deliveries, list_deliveries, delete_delivery,
  insert_row,
}
use repowire.Queue.Rows.{queue, keep_comm, length-drop}
use repowire.Queue.Order.{WellFormed}
use repowire.Queue.View.{
  QueueAfter, Enqueuing, Draining, live_queue, newest, queue-delete_expired, keep-WellFormed,
  enqueue_delivery_lem, drain_deliveries_lem,
}

pub data QueueOp : Type 0 where
  enqueue : String → ℕ → QueuedDelivery → QueueOp
  drain : String → ℕ → QueueOp
  list : String → ℕ → QueueOp
  delete : String → QueueOp

-- A call at its time.
pub record TimedOp : Type 0 where
  pub now : ℕ
  pub op : QueueOp

module _ (le : String → String → Bool) (format_iso : ℕ → String) (most : ℕ) where
  unfoldable pub perform : ℕ → QueueOp → Table → Table
  unfolding enqueue_delivery drain_deliveries list_deliveries delete_delivery
  perform now (enqueue token ttl d) t = (enqueue_delivery le format_iso token ttl most now d t).1
  perform now (drain peer limit) t = (drain_deliveries le format_iso peer limit now t).1
  perform now (list peer limit) t = (list_deliveries le format_iso peer limit now t).1
  perform now (delete id) t = (delete_delivery id t).1

  unfoldable pub perform_all : List TimedOp → Table → Table
  unfolding perform
  perform_all [] t = t
  perform_all (op ∷ ops) t = perform_all ops (perform op.now op.op t)

  -- In order, each id once, and no peer has more rows than the cap.
  abbrev pub Bounded : Table → Type 0
  Bounded t = WellFormed le t × ((peer : String) → length (queue peer t) ≤ most)

  keep-length :
      (f : QueuedDelivery → Bool) (peer : String) (t : Table)
      → length (queue peer (keep f t)) ≤ length (queue peer t)
  keep-length f peer t =
      subst (λ rows. length rows ≤ length (queue peer t))
        (keep_comm f (λ row. row.peer_id == peer) t) (length-keep f (queue peer t))

  either :
      (b : Bool) (s t : Table)
      → length s ≤ most
      → length t ≤ most
      → length (if b then s else t) ≤ most
  either true s t h k = h
  either false s t h k = k

  module _ (total : IsTotal le) (trans : IsTransitive le) where
    keep-Bounded : (f : QueuedDelivery → Bool) (t : Table) → Bounded t → Bounded (keep f t)
    keep-Bounded f t (wf, few) = (
      keep-WellFormed le total trans f t wf,
      λ peer. omega (arith, few peer, keep-length f peer t),
    )

    live-few :
        (cutoff peer : String) (t : Table) → Bounded t → length (live_queue le cutoff peer t) ≤ most
    live-few cutoff peer t (wf, few) =
        omega (arith, few peer, length-keep (is_live le cutoff) (queue peer t))

    length-newest : (rows : Table) → length (newest most rows) ≤ most
    length-newest rows = omega (arith, length-drop (length rows - most) rows)

    QueueAfter-few :
        (row : QueuedDelivery) (peer : String) (t after : Table)
        → Bounded t
        → QueueAfter le most row peer (delete_expired le row.created_at t) after
        → length (queue peer after) ≤ most
    QueueAfter-few row peer t after h e =
        let live = queue peer (delete_expired le row.created_at t) in
        let few : length live ≤ most =
          subst (λ (rows : Table). length rows ≤ most)
            (sym (queue-delete_expired le row.created_at peer t))
            (live-few row.created_at peer t h) in
        subst (λ (rows : Table). length rows ≤ most) (sym e)
          (either (row.peer_id == peer) (newest most (insert_row le row live)) live
            (length-newest (insert_row le row live)) few)

    Enqueuing-Bounded :
        (row : QueuedDelivery) (t : Table) (result : Enqueued × Table)
        → Bounded t
        → ((peer : String) → Enqueuing le total trans most row peer t result)
        → Bounded result.1
    Enqueuing-Bounded row t (disabled, after) h e = subst Bounded (sym (e "")) h
    Enqueuing-Bounded row t (constraint_failed, after) h e = subst Bounded (sym (e "").0) h
    Enqueuing-Bounded row t (queued stored, after) h e =
        ((e "").2, λ peer. QueueAfter-few row peer t after h (e peer).1)

    Draining-Bounded :
        (peer : String) (limit : ℕ) (cutoff : String) (t : Table)
        (result : List QueuedDelivery × Table)
        → Bounded t
        → ((q : String) → Draining le total trans peer limit cutoff q t result)
        → Bounded result.1
    Draining-Bounded peer limit cutoff t (out, after) h left = (
      (left "").0,
      λ q.
          subst (λ (rows : Table). length rows ≤ most) (sym (left q).1)
            (either (peer == q) (drop limit (live_queue le cutoff q t)) (live_queue le cutoff q t)
              (omega (arith, length-drop limit (live_queue le cutoff q t), live-few cutoff q t h))
              (live-few cutoff q t h)),
    )

    drain-Bounded :
        (peer : String) (limit now : ℕ) (t : Table)
        → Bounded t
        → Bounded (drain_deliveries le format_iso peer limit now t).1
    unfolding drain_deliveries
    drain-Bounded peer limit now t h = elim (Bool-cases (eqb limit 0)) [
      | inl off ↦ rw (off, drain_deliveries) h
      | inr on ↦
          Draining-Bounded peer limit (format_iso now) t
            (drain_deliveries le format_iso peer limit now t) h
            (λ q. drain_deliveries_lem le total trans format_iso peer limit now q t h.0 on)
    ]

    list-Bounded :
        (peer : String) (limit now : ℕ) (t : Table)
        → Bounded t
        → Bounded (list_deliveries le format_iso peer limit now t).1
    unfolding delete_expired list_deliveries
    list-Bounded peer limit now t h = elim (Bool-cases (eqb limit 0)) [
      | inl off ↦ rw (off, list_deliveries) h
      | inr on ↦ rw (on, list_deliveries) (keep-Bounded (is_live le (format_iso now)) t h)
    ]

    perform-Bounded : (now : ℕ) (op : QueueOp) (t : Table) → Bounded t → Bounded (perform now op t)
    unfolding perform delete_delivery delete_row
    perform-Bounded now (enqueue token ttl d) t h =
        let row = stamped le format_iso token ttl now d in
        Enqueuing-Bounded row t (enqueue_delivery le format_iso token ttl most now d t) h
          (λ peer. enqueue_delivery_lem le total trans format_iso token ttl most now d peer t h.0)
    perform-Bounded now (drain peer limit) t h = drain-Bounded peer limit now t h
    perform-Bounded now (list peer limit) t h = list-Bounded peer limit now t h
    perform-Bounded now (delete id) t h = keep-Bounded (λ row. not (has_id id row)) t h

    -- Through every history of calls with one cap and a total and transitive order of texts, from a table
    -- that is in order with each id once and no peer over the cap (the empty one among them), the table
    -- stays so.
    pub perform_all-Bounded :
        (ops : List TimedOp) (t : Table) → Bounded t → Bounded (perform_all ops t)
    unfolding perform_all
    perform_all-Bounded [] t h = h
    perform_all-Bounded (op ∷ ops) t h =
        perform_all-Bounded ops (perform op.now op.op t) (perform-Bounded op.now op.op t h)
