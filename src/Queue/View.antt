-- ===== src/Queue/View.antt =====
-- The table seen as one queue for each peer: what the operations do to the queues.
use repowire.Prelude.{
  IsTotal, IsTransitive, ℕ, ◌-◌, String, Bool, true, false, ◌||◌, ◌==◌, ◌≡◌, refl, sym, ap, ◌∙◌,
  List, exists, keep, map, take, drop, length, if◌then◌else◌, eqb, eq_iff, Bool-cases, inl, inr,
  subst,
}
use repowire.Queue.Store.{
  QueuedDelivery, Table, Enqueued, disabled, constraint_failed, queued, has_id, of_peer, id_of,
  insert_row, is_live, delete_expired, enforce_cap, select_for_peer, stamped, store_row,
  enqueue_delivery, delete_rows, drain_deliveries,
}
use repowire.Queue.Rows.{
  UniqueIds, queue, delete_front, delete_front-mine, delete_front-other, enforce_cap-front,
  keep-UniqueIds, keep_comm, keep-keep, keep_twice, delete_rows-keep, outside,
}
use repowire.Queue.Order.{
  WellFormed, keep-IsOrdered, keep-insert_row, insert_row-IsOrdered, insert_row-UniqueIds,
}

-- The last rows of a queue.
abbrev pub newest : ℕ → Table → Table
newest most rows = drop (length rows - most) rows

module _ (le : String → String → Bool) where
  -- A row arrives at a bounded queue.
  abbrev pub arrive : ℕ → QueuedDelivery → Table → Table
  arrive most row rows = newest most (insert_row le row rows)

  -- The unexpired queue of a peer.
  abbrev pub live_queue : String → String → Table → Table
  live_queue cutoff peer t = keep (is_live le cutoff) (queue peer t)

  pub queue-delete_expired :
      (cutoff peer : String) (t : Table)
      → queue peer (delete_expired le cutoff t) ≡ live_queue cutoff peer t
  unfolding delete_expired
  queue-delete_expired cutoff peer t = keep_comm (of_peer peer) (is_live le cutoff) t

  pub select_for_peer-live :
      (cutoff peer : String) (limit : ℕ) (t : Table)
      → select_for_peer le peer cutoff limit (delete_expired le cutoff t)
        ≡ take limit (queue peer (delete_expired le cutoff t))
  unfolding delete_expired select_for_peer
  select_for_peer-live cutoff peer limit t = ap (take limit) (
      sym (keep-keep (of_peer peer) (is_live le cutoff) (keep (is_live le cutoff) t))
      ∙ ap (keep (of_peer peer)) (keep_twice (is_live le cutoff) t))

  -- What the stored row makes of the queue of a peer.
  abbrev pub QueueAfter : ℕ → QueuedDelivery → String → Table → Table → Type 0
  QueueAfter most row peer live after =
      queue peer after
      ≡ (if row.peer_id == peer then arrive most row (queue peer live) else queue peer live)

  if-then : {b : Bool} → b ≡ true → (s t : Table) → (if b then s else t) ≡ s
  if-then is s t = rw (is) refl

  store-QueueAfter :
      IsTransitive le
      → (most : ℕ) (row : QueuedDelivery) (peer : String) (live : Table) → WellFormed le live
      → exists (has_id row.delivery_id) live ≡ false
      → QueueAfter most row peer live (enforce_cap row.peer_id most (insert_row le row live))
  store-QueueAfter trans most row peer live (ordered, unique) fresh =
      let added = insert_row le row live in
      let uniq = insert_row-UniqueIds le row live fresh unique in
      let k = length (queue row.peer_id added) - most in
      let split = keep-insert_row le trans (of_peer peer) row live ordered in
      elim (Bool-cases (row.peer_id == peer)) [
        | inl same ↦
            let capped : queue row.peer_id (enforce_cap row.peer_id most added)
                ≡ newest most (queue row.peer_id added) =
              ap (queue row.peer_id) (enforce_cap-front row.peer_id most added)
              ∙ delete_front-mine row.peer_id k added uniq in
            let joined : queue peer added ≡ insert_row le row (queue peer live) =
              split ∙ if-then same (insert_row le row (queue peer live)) (queue peer live) in
            subst (λ p. queue p (enforce_cap row.peer_id most added) ≡ newest most (queue p added))
              ((eq_iff row.peer_id peer).0 same) capped
            ∙ ap (newest most) joined
            ∙ rw (same) refl
        | inr differ ↦
            ap (queue peer) (enforce_cap-front row.peer_id most added)
            ∙ delete_front-other row.peer_id peer k added uniq differ
            ∙ split
            ∙ rw (differ) refl
      ]

  -- What is left of the queues after the first rows of a peer are deleted.
  front_left :
      (peer q : String) (k : ℕ) (t : Table)
      → UniqueIds t
      → queue q (delete_front peer k t) ≡ (if peer == q then drop k (queue q t) else queue q t)
  front_left peer q k t unique = elim (Bool-cases (peer == q)) [
    | inl same ↦
        subst (λ p. queue p (delete_front peer k t) ≡ drop k (queue p t)) ((eq_iff peer q).0 same)
          (delete_front-mine peer k t unique)
        ∙ rw (same) refl
    | inr differ ↦ delete_front-other peer q k t unique differ ∙ rw (differ) refl
  ]

  module _ (total : IsTotal le) (trans : IsTransitive le) where
    pub keep-WellFormed :
        (f : QueuedDelivery → Bool) (t : Table) → WellFormed le t → WellFormed le (keep f t)
    keep-WellFormed f t (ordered, unique) =
        (keep-IsOrdered le f t ordered, keep-UniqueIds f t unique)

    delete_rows-WellFormed :
        (ids : List String) (t : Table) → WellFormed le t → WellFormed le (delete_rows ids t)
    delete_rows-WellFormed ids t wf =
        subst (WellFormed le) (sym (delete_rows-keep ids t)) (keep-WellFormed (outside ids) t wf)

    stored_wf :
        (row : QueuedDelivery) (most : ℕ) (live : Table)
        → WellFormed le live
        → exists (has_id row.delivery_id) live ≡ false
        → WellFormed le (enforce_cap row.peer_id most (insert_row le row live))
    stored_wf row most live (ordered, unique) fresh =
        let added = insert_row le row live in
        subst (WellFormed le) (sym (enforce_cap-front row.peer_id most added)) (
          delete_rows-WellFormed
            (map id_of (take (length (queue row.peer_id added) - most) (queue row.peer_id added)))
            added
            (
              insert_row-IsOrdered le total trans row live ordered,
              insert_row-UniqueIds le row live fresh unique,
            ))

    -- A result of `enqueue_delivery`, by the row that it stores and the table before.
    abbrev pub Enqueuing : ℕ → QueuedDelivery → String → Table → Enqueued × Table → Type 0
    Enqueuing most row peer t (disabled, after) = after ≡ t
    Enqueuing most row peer t (constraint_failed, after) =
        (after ≡ t) × (exists (has_id row.delivery_id) (delete_expired le row.created_at t) ≡ true)
    Enqueuing most row peer t (queued stored, after) =
        (stored ≡ row)
        × QueueAfter most row peer (delete_expired le row.created_at t) after
        × WellFormed le after

    store_row-Enqueuing :
        (format_iso : ℕ → String) (most : ℕ) (row : QueuedDelivery) (peer : String) (t : Table)
        → WellFormed le t
        → Enqueuing most row peer t (store_row le format_iso most row t)
    unfolding store_row
    store_row-Enqueuing format_iso most row peer t wf =
        let live = delete_expired le row.created_at t in
        let live_wf : WellFormed le live =
          unfold delete_expired in keep-WellFormed (is_live le row.created_at) t wf in
        elim (Bool-cases (exists (has_id row.delivery_id) live)) [
          | inl taken ↦ rw (taken, store_row) (refl, taken)
          | inr fresh ↦
              rw (fresh, store_row)
                (
                  refl,
                  store-QueueAfter trans most row peer live live_wf fresh,
                  stored_wf row most live live_wf fresh,
                )
        ]

    -- In a table that is in order with each id once, for a transitive and total order of texts: a
    -- delivery that is stored is the given one with its id and times; in the queue of its peer, which
    -- loses what is expired, it takes its place by (created_at, delivery_id), and of that only the newest
    -- rows up to the cap stay; the queue of any other peer only loses what is expired. A delivery that is
    -- not stored changes nothing: the queue is disabled, or the id is taken by an unexpired row. The
    -- table stays in order with each id once.
    pub enqueue_delivery_lem :
        (format_iso : ℕ → String) (token : String) (ttl most now : ℕ) (d : QueuedDelivery)
        (peer : String) (t : Table)
        → WellFormed le t
        → Enqueuing most
            (stamped le format_iso token ttl now d)
            peer
            t
            (enqueue_delivery le format_iso token ttl most now d t)
    unfolding enqueue_delivery
    enqueue_delivery_lem format_iso token ttl most now d peer t wf =
        elim (Bool-cases (eqb most 0 || eqb ttl 0)) [
          | inl off ↦ rw (off, enqueue_delivery) refl
          | inr on ↦
              rw (on, enqueue_delivery)
                (store_row-Enqueuing format_iso most (stamped le format_iso token ttl now d) peer t
                  wf)
        ]

    -- What a drain of one peer returns, and what it leaves to each.
    abbrev pub Draining :
        String → ℕ → String → String → Table → List QueuedDelivery × Table → Type 0
    Draining peer limit cutoff q t result =
        WellFormed le result.1
        × (queue q result.1
            ≡ (if peer == q then drop limit (live_queue cutoff q t) else live_queue cutoff q t))
        × (result.0 ≡ take limit (live_queue cutoff peer t))

    -- In a table that is in order with each id once, for a total and transitive order of texts, and with a
    -- positive limit: a drain returns the first unexpired rows of its peer, oldest first and up to the
    -- limit; the peer keeps exactly the unexpired rows after these, and any other peer all its unexpired
    -- rows. The table stays in order with each id once.
    pub drain_deliveries_lem :
        (format_iso : ℕ → String) (peer : String) (limit now : ℕ) (q : String) (t : Table)
        → WellFormed le t
        → eqb limit 0 ≡ false
        → Draining peer limit (format_iso now) q t (drain_deliveries le format_iso peer limit now t)
    unfolding drain_deliveries
    drain_deliveries_lem format_iso peer limit now q t wf some_limit =
        let cutoff = format_iso now in
        let live = delete_expired le cutoff t in
        let live_wf : WellFormed le live =
          unfold delete_expired in keep-WellFormed (is_live le cutoff) t wf in
        rw (some_limit, drain_deliveries, select_for_peer-live cutoff peer limit t)
          (
            delete_rows-WellFormed (map id_of (take limit (queue peer live))) live live_wf,
            front_left peer q limit live live_wf.1
                ∙ ap (λ (rows : Table). if peer == q then drop limit rows else rows)
                    (queue-delete_expired cutoff q t),
            ap (take limit) (queue-delete_expired cutoff peer t),
          )
