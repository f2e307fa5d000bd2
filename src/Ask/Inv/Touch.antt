-- ===== src/Ask/Inv/Touch.antt =====
-- Changes of the ask table that end no ask: a field of a stored ask, a new ask, a removed one.
use repowire.Prelude.{
  String, false, ◌≡◌, none, some, eq_iff, lookup, erase, lookup-insert, lookup-erase,
  insert-UniqueKeys, erase-UniqueKeys, arith,
}
use repowire.Ask.Types.{Ask, AskTracker}
use repowire.Ask.Ops.{store}
use repowire.Ask.Inv.{Inv}

module _ {t : AskTracker} (cid : String) (a' : Ask) (h : Inv t) where
  -- A stored ask that stays as open as it was, and keeps endpoints and answer while it is open.
  pub touch :
      {a : Ask}
      → lookup cid t.asks ≡ some a
      → a'.closed ≡ a.closed
      → (a.closed ≡ false
          → (a'.answer ≡ a.answer)
            × (a'.to_peer_id ≡ a.to_peer_id)
            × (a'.from_peer_id ≡ a.from_peer_id))
      → Inv (store cid a' t)
  touch {a} here same keeps = record {
    unique = insert-UniqueKeys cid a' t.asks h.unique;
    empty = h.empty;
    minted = h.minted;
    separate = h.separate;
    attached =
        λ c w p. ground (arith, lookup-insert cid c a' t.asks, h.attached c w p, eq_iff cid c);
    unanswered = λ c b p k.
        ground (
          arith,
          lookup-insert cid c a' t.asks,
          h.unanswered c b,
          h.unanswered cid a,
          eq_iff cid c,
        );
    barrier = λ c b p k.
        ground (arith, lookup-insert cid c a' t.asks, h.barrier c b, h.barrier cid a, eq_iff cid c);
  }

  -- A new ask between peers that are not in the middle of a switch.
  pub add :
      lookup cid t.asks ≡ none
      → a'.answer ≡ none
      → t.quiescing a'.to_peer_id ≡ false
      → t.quiescing a'.from_peer_id ≡ false
      → Inv (store cid a' t)
  add fresh blank to from = record {
    unique = insert-UniqueKeys cid a' t.asks h.unique;
    empty = h.empty;
    minted = h.minted;
    separate = h.separate;
    attached =
        λ c w p. ground (arith, lookup-insert cid c a' t.asks, h.attached c w p, eq_iff cid c);
    unanswered = λ c b p k. ground (arith, lookup-insert cid c a' t.asks, h.unanswered c b);
    barrier = λ c b p k. ground (arith, lookup-insert cid c a' t.asks, h.barrier c b);
  }

-- An ask that nobody waits for is deleted.
pub remove :
    {t : AskTracker} (cid : String)
    → Inv t
    → t.answer_waiters cid ≡ none
    → Inv (record t { asks = erase cid t.asks })
remove {t} cid h free = record {
  unique = erase-UniqueKeys cid t.asks h.unique;
  empty = h.empty;
  minted = h.minted;
  separate = h.separate;
  attached = λ c w p. ground (arith, lookup-erase cid c t.asks, h.attached c w p, eq_iff cid c);
  unanswered = λ c b p k. ground (arith, lookup-erase cid c t.asks, h.unanswered c b);
  barrier = λ c b p k. ground (arith, lookup-erase cid c t.asks, h.barrier c b);
}
