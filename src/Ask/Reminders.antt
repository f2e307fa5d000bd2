-- ===== src/Ask/Reminders.antt =====
-- The reminder list of `PendingForPeer`, and what forgetting and sweeping remove
-- (daemon-go/service/ask_tracker.go).
use mathlib.Core.List.{Perm}
use mathlib.Core.List.Perm
use repowire.Prelude.{
  ℕ, zero, suc, ◌≤◌, String, true, false, ◌≡◌, ◌&&◌, ◌||◌, not, refl, ◌∙◌, inl, inr, Option, none,
  some, List, [], ◌∷◌, lookup, arith, is_some, Bool-cases, Option-cases, take, length, length-take,
}
use repowire.Proto.{PeerId}
use repowire.Ask.Types.{invalid_direction, Ask, AskTracker}
use repowire.Ask.Ops.{Result, ok, err}
use repowire.Ask.Replies.{involves, is_expired, snapshot}
use repowire.Ask.Sweep.{
  Direction, parse_direction, insert_newest, sort_newest, candidates, list_pending, forget_peer,
  evict_expired, claim_sweep, swept_lately, maybe_evict_expired, pending_for_peer,
}
use repowire.Ask.Evict.{evict_matching_lem, unless}
use repowire.Ask.Step.Rounds.{stamp-Inv}
use repowire.Ask.Inv.{Inv}

-- Newest first, by creation time.
abbrev pub NewestFirst : List Ask → Type 0
NewestFirst [] = Unit
NewestFirst (a ∷ []) = Unit
NewestFirst (a ∷ b ∷ l) = (b.created_at ≤ a.created_at) × NewestFirst (b ∷ l)

insert_newest-NewestFirst :
    (a : Ask) (l : List Ask) → NewestFirst l → NewestFirst (insert_newest a l)
unfolding insert_newest
insert_newest-NewestFirst a [] h = tt
insert_newest-NewestFirst a (b ∷ []) h = ground arith
insert_newest-NewestFirst a (b ∷ c ∷ l) h = ground (arith, insert_newest-NewestFirst a (c ∷ l) h.1)

sort_newest-NewestFirst : (l : List Ask) → NewestFirst (sort_newest l)
unfolding sort_newest
sort_newest-NewestFirst [] = tt
sort_newest-NewestFirst (a ∷ l) =
    insert_newest-NewestFirst a (sort_newest l) (sort_newest-NewestFirst l)

take-NewestFirst : (n : ℕ) (l : List Ask) → NewestFirst l → NewestFirst (take n l)
take-NewestFirst zero l h = tt
take-NewestFirst (suc n) [] h = tt
take-NewestFirst (suc zero) (a ∷ l) h = tt
take-NewestFirst (suc (suc n)) (a ∷ []) h = tt
take-NewestFirst (suc (suc n)) (a ∷ b ∷ l) h = (h.0, take-NewestFirst (suc n) (b ∷ l) h.1)

-- A capped reminder list is newest first, is not longer than the cap, and is the front of the
-- uncapped list.
pub list_pending_capped :
    (d : Direction) (id : PeerId) (n : ℕ) (t : AskTracker)
    → NewestFirst (list_pending d id (some n) t)
      × (length (list_pending d id (some n) t) ≤ n)
      × (list_pending d id (some n) t ≡ take n (list_pending d id none t))
unfolding list_pending
list_pending_capped d id n t = (
  take-NewestFirst n (sort_newest (candidates d id t))
      (sort_newest-NewestFirst (candidates d id t)),
  omega (arith, length-take n (sort_newest (candidates d id t))),
  refl,
)

-- `ForgetPeer` goes through; it removes every ask that has the peer as an endpoint and no other
-- entry, and returns how many it removed.
pub forget_peer_lem :
    (id : PeerId) (t : AskTracker)
    → Inv t
    → (u : AskTracker) × (forget_peer id t ≡ some (length (snapshot (involves id) t), u))
      × ((c : String) → lookup c u.asks ≡ unless (involves id) (lookup c t.asks))
unfolding forget_peer
forget_peer_lem id t h =
    let (u, went, _, look) = evict_matching_lem (involves id) t h in (u, went, look)

stashed_kept :
    (now : ℕ) (t : AskTracker) (a : Ask)
    → is_some a.pending_reply ≡ true
    → unless (λ b. is_expired now t.ttl b && (false || not (is_some b.pending_reply))) (some a)
      ≡ some a
stashed_kept now t a k = ground arith

sweep_keeps_stash :
    (now : ℕ) (t : AskTracker) (c : String) (a : Ask)
    → Inv t
    → lookup c t.asks ≡ some a
    → is_some a.pending_reply ≡ true
    → (u : AskTracker) × (maybe_evict_expired now t ≡ some u) × (lookup c u.asks ≡ some a)
unfolding maybe_evict_expired claim_sweep evict_expired
sweep_keeps_stash now t c a h here k = elim (Bool-cases (swept_lately now t.last_eviction)) [
  | inl lately ↦ rw (lately, maybe_evict_expired) (t, refl, here)
  | inr due ↦
      let stamped = record t { last_eviction = some now } in
      let p = λ (b : Ask). is_expired now t.ttl b && (false || not (is_some b.pending_reply)) in
      let (u, went, inv, look) = evict_matching_lem p stamped (stamp-Inv now t h) in
      rw (due, maybe_evict_expired) (u, ground arith, look c ∙ rw here (stashed_kept now t a k))
]

-- The sweep that a reminder poll may start never drops a stashed reply, however old: the ask that
-- holds it is in the table as it was.
pub pending_for_peer_keeps_stash :
    (now : ℕ) (id : PeerId) (max_results : Option ℕ) (direction : String) (t : AskTracker)
    (c : String) (a : Ask)
    → Inv t
    → lookup c t.asks ≡ some a
    → is_some a.pending_reply ≡ true
    → (r : Result (List Ask)) × (u : AskTracker) × (pending_for_peer now id max_results direction t
        ≡ some (r, u))
      × (lookup c u.asks ≡ some a)
unfolding pending_for_peer
pending_for_peer_keeps_stash now id max_results direction t c a h here k =
    elim (Option-cases (parse_direction direction)) [
      | inl unknown ↦ rw (unknown, pending_for_peer) (err invalid_direction, t, refl, here)
      | inr (d, known) ↦
          let (u, went, kept) = sweep_keeps_stash now t c a h here k in
          rw (known, pending_for_peer) (ok (list_pending d id max_results u), u, rw went refl, kept)
    ]
