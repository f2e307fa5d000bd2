-- ===== src/Ask/Guarantees.antt =====
-- Theorems on histories of calls of the ask tracker (daemon-go/service/ask_tracker.go).
use mathlib.Core.Option.{some-injective}
use mathlib.Core.Path.{subst}
use repowire.Prelude.{ℕ, String, true, false, ◌≡◌, ◌∙◌, sym, Option, none, some, List, lookup}
use repowire.Ask.Types.{Ask, AskTracker}
use repowire.Ask.Ops.{new_ask_tracker}
use repowire.Ask.Inv.{Inv, is_open}
use repowire.Ask.Step.{SameOutcome}
use repowire.Ask.Run.{Call, exec, run, exec-Goes, run-Inv, new_ask_tracker-Inv}

-- No history of calls on a new tracker faults: no section blocks on a full answer channel while it
-- holds the mutex, and none dereferences a missing ask.
pub run_never_faults :
    (ttl : ℕ) (cs : List Call) → (u : AskTracker) × (run cs (new_ask_tracker ttl) ≡ some u)
run_never_faults ttl cs =
    let (u, went, _) = run-Inv cs (new_ask_tracker ttl) (new_ask_tracker-Inv ttl) in (u, went)

one_end : {t u : AskTracker} {x : Option AskTracker} → x ≡ some t → x ≡ some u → t ≡ u
one_end {t} {u} p q = some-injective t u (sym p ∙ q)

module _ (ttl : ℕ) (cs : List Call) {t : AskTracker}
    (ran : run cs (new_ask_tracker ttl) ≡ some t) where
  -- Any tracker that a history of calls reaches satisfies the invariant.
  reached-Inv : Inv t
  reached-Inv =
      let (u, went, h) = run-Inv cs (new_ask_tracker ttl) (new_ask_tracker-Inv ttl) in
      subst Inv (one_end went ran) h

  -- While a peer is in the middle of a switch, no open ask has it as an endpoint, in either
  -- direction, whatever was called since the switch began.
  pub switch_barrier :
      (cid : String) (a : Ask)
      → lookup cid t.asks ≡ some a
      → a.closed ≡ false
      → (t.quiescing a.to_peer_id ≡ false) × (t.quiescing a.from_peer_id ≡ false)
  switch_barrier = reached-Inv.barrier

  -- A channel in the waiter table belongs to an ask that is still open, and is empty: a wait is
  -- never left behind by an ask that has ended.
  pub waiter_has_open_ask :
      (cid : String) (w : ℕ)
      → t.answer_waiters cid ≡ some w
      → (is_open (lookup cid t.asks) ≡ true) × (t.buffer w ≡ none)
  waiter_has_open_ask cid w e = (reached-Inv.attached cid w e, reached-Inv.empty cid w e)

  -- The first terminal state wins: no call changes the close reason or the answer of a closed ask,
  -- or reopens it; it may only be deleted.
  pub outcome_final :
      (c : Call) {u : AskTracker} (cid : String) (a : Ask)
      → exec c t ≡ some u
      → lookup cid t.asks ≡ some a
      → a.closed ≡ true
      → SameOutcome a (lookup cid u.asks)
  outcome_final c cid a went here k =
      let (v, went', step) = exec-Goes c t reached-Inv in
      subst (λ w. SameOutcome a (lookup cid w.asks)) (one_end went' went)
        (step.outcomes cid a here k)
