-- ===== src/Ask/Inv/Finish.antt =====
-- An ask ends: it is stored closed, and its waiter, if any, is resolved.
use repowire.Prelude.{
  ℕ, String, true, false, ◌≡◌, refl, inl, inr, none, some, eq_iff, lookup, insert, lookup-insert,
  insert-UniqueKeys, update, update_at, arith, Option-cases,
}
use repowire.Ask.Types.{Answer, Ask, AskTracker}
use repowire.Ask.Channel.{resolve_waiter}
use repowire.Ask.Ops.{store}
use repowire.Ask.Inv.{Inv}

module _ {t : AskTracker} {a : Ask} (cid : String) (a' : Ask) (h : Inv t)
    (here : lookup cid t.asks ≡ some a) (was_open : a.closed ≡ false)
    (shut : a'.closed ≡ true) where
  finish_unwatched : t.answer_waiters cid ≡ none → Inv (store cid a' t)
  finish_unwatched free = record {
    unique = insert-UniqueKeys cid a' t.asks h.unique;
    empty = h.empty;
    minted = h.minted;
    separate = h.separate;
    attached =
        λ c w p. ground (arith, lookup-insert cid c a' t.asks, h.attached c w p, eq_iff cid c);
    unanswered =
        λ c b p k. ground (arith, lookup-insert cid c a' t.asks, h.unanswered c b, eq_iff cid c);
    barrier = λ c b p k. ground (arith, lookup-insert cid c a' t.asks, h.barrier c b, eq_iff cid c);
  }

  abbrev resolved : ℕ → Answer → AskTracker
  resolved w ans = record t {
    asks = insert cid a' t.asks;
    answer_waiters = update t.answer_waiters cid none;
    buffer = update_at t.buffer w (some ans);
  }

  finish_watched : (w : ℕ) (ans : Answer) → t.answer_waiters cid ≡ some w → Inv (resolved w ans)
  finish_watched w ans watched = record {
    unique = insert-UniqueKeys cid a' t.asks h.unique;
    empty = λ c v p. ground (arith, h.empty c v, h.separate c cid v, eq_iff cid c);
    minted = λ c v p. ground (arith, h.minted c v);
    separate = λ c d v p q. ground (arith, h.separate c d v);
    attached = λ c v p. ground (arith, lookup-insert cid c a' t.asks, h.attached c v, eq_iff cid c);
    unanswered =
        λ c b p k. ground (arith, lookup-insert cid c a' t.asks, h.unanswered c b, eq_iff cid c);
    barrier = λ c b p k. ground (arith, lookup-insert cid c a' t.asks, h.barrier c b, eq_iff cid c);
  }

  -- The section goes through, and leaves the invariant and the one entry changed.
  pub finish :
      (ans : Answer)
      → (u : AskTracker) × (resolve_waiter cid ans (store cid a' t) ≡ some u)
        × Inv u
        × (u.asks ≡ insert cid a' t.asks)
        × (u.answer_waiters cid ≡ none)
  unfolding resolve_waiter
  finish ans = elim (Option-cases (t.answer_waiters cid)) [
    | inl free ↦ (store cid a' t, ground arith, finish_unwatched free, refl, free)
    | inr (w, watched) ↦ (
      resolved w ans,
      ground (arith, h.empty cid w watched),
      finish_watched w ans watched,
      refl,
      ground (arith, eq_iff cid cid),
    )
  ]
