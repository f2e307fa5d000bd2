-- ===== src/Ask/Inv/Waiters.antt =====
-- Channels come and go, and switches begin and end.
use repowire.Prelude.{
  ℕ, String, true, false, ◌≡◌, some, List, [], ◌∷◌, eq_iff, exists, lookup, arith,
}
use repowire.Proto.{PeerId}
use repowire.Ask.Types.{Ask, AskTracker}
use repowire.Ask.Channel.{waiter_for, receive}
use repowire.Ask.Sweep.{open_with, begin_quiesce, end_quiesce}
use repowire.Ask.Replies.{involves}
use repowire.Ask.Inv.{Inv, is_open}

pub waiter_for-Inv :
    {t : AskTracker} (cid : String)
    → Inv t
    → is_open (lookup cid t.asks) ≡ true
    → Inv (waiter_for cid t).1
unfolding waiter_for
waiter_for-Inv {t} cid h open_ask = record {
  unique = ground (arith, h.unique);
  empty = λ c w p. ground (arith, h.empty c w, h.minted c w, eq_iff cid c);
  minted = λ c w p. ground (arith, h.minted c w, eq_iff cid c);
  separate = λ c d w p q.
      ground (arith, h.separate c d w, h.minted c w, h.minted d w, eq_iff cid c, eq_iff cid d);
  attached = λ c w p. ground (arith, h.attached c w, eq_iff cid c);
  unanswered = λ c b p k. ground (arith, h.unanswered c b);
  barrier = λ c b p k. ground (arith, h.barrier c b);
}

pub receive-Inv : {t : AskTracker} (w : ℕ) → Inv t → Inv (receive w t).1
unfolding receive
receive-Inv {t} w h = record {
  unique = h.unique;
  empty = λ c v p. ground (arith, h.empty c v);
  minted = h.minted;
  separate = h.separate;
  attached = h.attached;
  unanswered = h.unanswered;
  barrier = h.barrier;
}

-- What `BeginQuiesce` has looked through holds of each ask.
no_open_with :
    (id : PeerId) (m : List (String × Ask)) (c : String) (a : Ask)
    → exists (open_with id) m ≡ false
    → lookup c m ≡ some a
    → a.closed ≡ false
    → involves id a ≡ false
unfolding lookup
no_open_with id [] c a none_open p k = cc
no_open_with id ((d, b) ∷ m) c a none_open p k = ground (arith, no_open_with id m c a, eq_iff d c)

pub begin_quiesce-Inv : {t : AskTracker} (id : PeerId) → Inv t → Inv (begin_quiesce id t).1
unfolding begin_quiesce
begin_quiesce-Inv {t} id h = record {
  unique = ground (arith, h.unique);
  empty = λ c w p. ground (arith, h.empty c w);
  minted = λ c w p. ground (arith, h.minted c w);
  separate = λ c d w p q. ground (arith, h.separate c d w);
  attached = λ c w p. ground (arith, h.attached c w);
  unanswered = λ c b p k. ground (arith, h.unanswered c b);
  barrier = λ c b p k. ground (
    arith,
    h.barrier c b,
    no_open_with id t.asks c b,
    eq_iff id b.to_peer_id,
    eq_iff id b.from_peer_id,
    eq_iff b.to_peer_id id,
    eq_iff b.from_peer_id id,
  );
}

pub end_quiesce-Inv : {t : AskTracker} (id : PeerId) → Inv t → Inv (end_quiesce id t)
unfolding end_quiesce
end_quiesce-Inv {t} id h = record {
  unique = h.unique;
  empty = h.empty;
  minted = h.minted;
  separate = h.separate;
  attached = h.attached;
  unanswered = h.unanswered;
  barrier = λ c b p k. ground (arith, h.barrier c b p k);
}
