-- ===== src/Ask/Step/Rounds.antt =====
-- `Step` for evictions, reminders and the switch barrier of daemon-go/service/ask_tracker.go.
use repowire.Prelude.{
  ℕ, String, Bool, true, false, ◌≡◌, refl, inl, inr, Option, some, is_some, arith, Bool-cases,
  Option-cases, ◌&&◌, ◌||◌, not, length,
}
use repowire.Proto.{PeerId}
use repowire.Ask.Types.{Ask, AskTracker, invalid_direction}
use repowire.Ask.Ops.{ok, err}
use repowire.Ask.Replies.{involves, is_expired, snapshot}
use repowire.Ask.Sweep.{
  evict_matching, forget_peer, evict_expired, swept_lately, claim_sweep, maybe_evict_expired,
  parse_direction, list_pending, pending_for_peer, begin_quiesce, end_quiesce,
}
use repowire.Ask.Evict.{evict_matching_lem, unless}
use repowire.Ask.Inv.{Inv}
use repowire.Ask.Inv.Waiters.{begin_quiesce-Inv, end_quiesce-Inv}
use repowire.Ask.Step.{SameOutcome, Step, Steps}
use repowire.Ask.Step.Rules.{Step-refl, Step-asks_set}

unless-SameOutcome :
    (p : Ask → Bool) (a : Ask) → a.closed ≡ true → SameOutcome a (unless p (some a))
unless-SameOutcome p a k = elim (Bool-cases (p a)) [
  | inl doomed ↦ rw doomed tt
  | inr kept ↦ rw kept (k, refl, refl)
]

pub evict_matching-Steps : (p : Ask → Bool) (t : AskTracker) → Inv t → Steps t (evict_matching p t)
evict_matching-Steps p t h =
    let (u, went, inv, look) = evict_matching_lem p t h in
    (
      length (snapshot p t),
      u,
      went,
      record { inv = inv; outcomes = λ c a here k. rw (look c, here) (unless-SameOutcome p a k) },
    )

pub forget_peer-Steps : (id : PeerId) (t : AskTracker) → Inv t → Steps t (forget_peer id t)
unfolding forget_peer
forget_peer-Steps id t h = evict_matching-Steps (involves id) t h

pub evict_expired-Steps :
    (now : ℕ) (include_stashed : Bool) (t : AskTracker)
    → Inv t
    → Steps t (evict_expired now include_stashed t)
unfolding evict_expired
evict_expired-Steps now include_stashed t h =
    evict_matching-Steps
      (λ a. is_expired now t.ttl a && (include_stashed || not (is_some a.pending_reply))) t h

-- A sweep's time stamp is read by no other operation.
pub stamp-Inv : (now : ℕ) (t : AskTracker) → Inv t → Inv (record t { last_eviction = some now })
stamp-Inv now t h = record {
  unique = h.unique;
  empty = h.empty;
  minted = h.minted;
  separate = h.separate;
  attached = h.attached;
  unanswered = h.unanswered;
  barrier = h.barrier;
}

pub claim_sweep-Step : (now : ℕ) (t : AskTracker) → Inv t → Step t (claim_sweep now t).1
unfolding claim_sweep
claim_sweep-Step now t h = elim (Bool-cases (swept_lately now t.last_eviction)) [
  | inl lately ↦ rw (lately, claim_sweep) (Step-refl t h)
  | inr due ↦ rw (due, claim_sweep) (Step-asks_set (stamp-Inv now t h) refl)
]

pub maybe_evict_expired-Step :
    (now : ℕ) (t : AskTracker)
    → Inv t
    → (u : AskTracker) × (maybe_evict_expired now t ≡ some u) × Step t u
unfolding maybe_evict_expired claim_sweep
maybe_evict_expired-Step now t h = elim (Bool-cases (swept_lately now t.last_eviction)) [
  | inl lately ↦ rw (lately, maybe_evict_expired) (t, refl, Step-refl t h)
  | inr due ↦
      let stamped = record t { last_eviction = some now } in
      let (n, u, went, step) = evict_expired-Steps now false stamped (stamp-Inv now t h) in
      rw (due, maybe_evict_expired)
        (u, ground arith, record { inv = step.inv; outcomes = step.outcomes })
]

pub pending_for_peer-Steps :
    (now : ℕ) (id : PeerId) (max_results : Option ℕ) (direction : String) (t : AskTracker)
    → Inv t
    → Steps t (pending_for_peer now id max_results direction t)
unfolding pending_for_peer
pending_for_peer-Steps now id max_results direction t h =
    elim (Option-cases (parse_direction direction)) [
      | inl unknown ↦ rw (unknown, pending_for_peer) (err invalid_direction, t, refl, Step-refl t h)
      | inr (d, known) ↦
          let (u, went, step) = maybe_evict_expired-Step now t h in
          rw (known, pending_for_peer) (ok (list_pending d id max_results u), u, ground arith, step)
    ]

asks-begin_quiesce : (id : PeerId) (t : AskTracker) → (begin_quiesce id t).1.asks ≡ t.asks
unfolding begin_quiesce
asks-begin_quiesce id t = ground arith

pub begin_quiesce-Step : (id : PeerId) (t : AskTracker) → Inv t → Step t (begin_quiesce id t).1
begin_quiesce-Step id t h = Step-asks_set (begin_quiesce-Inv id h) (asks-begin_quiesce id t)

pub end_quiesce-Step : (id : PeerId) (t : AskTracker) → Inv t → Step t (end_quiesce id t)
unfolding end_quiesce
end_quiesce-Step id t h = Step-asks_set (unfold end_quiesce in end_quiesce-Inv id h) refl
