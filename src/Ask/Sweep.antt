-- ===== src/Ask/Sweep.antt =====
-- Reminders, eviction and the switch barrier (daemon-go/service/ask_tracker.go).
use mathlib.Core.Option
use repowire.Prelude.{
  ℕ, ◌+◌, String, Bool, true, false, ◌&&◌, ◌||◌, ◌==◌, not, Option, none, some, if◌then◌else◌, List,
  [], ◌∷◌, take, exists, lookup, erase, update, is_some, ltb, length,
}
use repowire.Proto.{PeerId}
use repowire.Ask.Types.{
  Error, quiesced, quiesce_has_open, invalid_direction, Ask, AskTracker, eviction_interval,
}
use repowire.Ask.Channel.{cancel_waiter}
use repowire.Ask.Ops.{Result, ok, err, store}
use repowire.Ask.Replies.{involves, is_expired, snapshot}

-- The keys of the asks that pass a test, in the order of the range.
unfoldable pub doomed : (Ask → Bool) → List (String × Ask) → List String
doomed p [] = []
doomed p ((cid, a) ∷ m) = let rest = doomed p m in if p a then cid ∷ rest else rest

-- The ask as `EvictExpired` and `ForgetPeer` leave it before they delete it.
abbrev pub evicted : Ask → Ask
evicted a = if a.closed then a else record a { closed = true; close_reason = "evicted" }

-- One round of the loop over the doomed keys.
unfoldable pub evict_one : String → AskTracker → Option AskTracker
evict_one cid t = elim (lookup cid t.asks) [
  | none ↦ none
  | some a ↦
      Option.map (λ (u : AskTracker). record u { asks = erase cid u.asks })
        (cancel_waiter cid none (store cid (evicted a) t))
]

unfoldable pub evict_all : List String → AskTracker → Option AskTracker
evict_all [] t = some t
evict_all (cid ∷ cids) t = elim (evict_one cid t) [ none ↦ none | some u ↦ evict_all cids u ]

abbrev pub evict_matching : (Ask → Bool) → AskTracker → Option (ℕ × AskTracker)
evict_matching p t =
    let cids = doomed p t.asks in Option.map (λ u. (length cids, u)) (evict_all cids t)

-- `ForgetPeer`
unfoldable pub forget_peer : PeerId → AskTracker → Option (ℕ × AskTracker)
forget_peer id = evict_matching (involves id)

-- `EvictExpired`
unfoldable pub evict_expired : ℕ → Bool → AskTracker → Option (ℕ × AskTracker)
evict_expired now include_stashed t =
    evict_matching
      (λ a. is_expired now t.ttl a && (include_stashed || not (is_some a.pending_reply))) t

-- `now.Sub(lastEviction) < evictionInterval` for a sweep that took place
unfoldable pub swept_lately : ℕ → Option ℕ → Bool
swept_lately now none = false
swept_lately now (some last) = ltb now (last + eviction_interval)

-- The first section of `maybeEvictExpired`: whether to sweep.
unfoldable pub claim_sweep : ℕ → AskTracker → Bool × AskTracker
unfolding swept_lately
claim_sweep now t =
    if swept_lately now t.last_eviction
    then (false, t)
    else (true, record t { last_eviction = some now })

-- `maybeEvictExpired`
unfoldable pub maybe_evict_expired : ℕ → AskTracker → Option AskTracker
maybe_evict_expired now t =
    let (due, u) = claim_sweep now t in
    if due then Option.map (λ (r : ℕ × AskTracker). r.1) (evict_expired now false u) else some u

pub data Direction : Type 0 where
  inbound outbound both : Direction

unfoldable pub parse_direction : String → Option Direction
parse_direction s =
    if s == "inbound"
    then some inbound
    else if s == "outbound"
    then some outbound
    else if s == "both"
    then some both
    else none

unfoldable pub matches : Direction → PeerId → Ask → Bool
matches inbound id a = a.to_peer_id == id
matches outbound id a = a.from_peer_id == id
matches both id a = involves id a

-- `sort.Slice` by `CreatedAt`, newest first
unfoldable pub insert_newest : Ask → List Ask → List Ask
insert_newest a [] = a ∷ []
insert_newest a (b ∷ l) = if ltb a.created_at b.created_at then b ∷ insert_newest a l else a ∷ b ∷ l

unfoldable pub sort_newest : List Ask → List Ask
unfolding insert_newest
sort_newest [] = []
sort_newest (a ∷ l) = insert_newest a (sort_newest l)

abbrev pub candidates : Direction → PeerId → AskTracker → List Ask
candidates d id = snapshot (λ a. matches d id a && not a.closed)

-- The last section of `PendingForPeer`; a negative `maxResults` is `none`.
unfoldable pub list_pending : Direction → PeerId → Option ℕ → AskTracker → List Ask
unfolding sort_newest
list_pending d id none t = sort_newest (candidates d id t)
list_pending d id (some n) t = take n (sort_newest (candidates d id t))

-- `PendingForPeer`
unfoldable pub pending_for_peer :
    ℕ → PeerId → Option ℕ → String → AskTracker → Option (Result (List Ask) × AskTracker)
pending_for_peer now id max_results direction t = elim (parse_direction direction) [
  | none ↦ some (err invalid_direction, t)
  | some d ↦ Option.map (λ u. (ok (list_pending d id max_results u), u)) (maybe_evict_expired now t)
]

abbrev pub open_with : PeerId → String × Ask → Bool
open_with id e = not e.1.closed && involves id e.1

-- `BeginQuiesce`: `none` is the nil error.
unfoldable pub begin_quiesce : PeerId → AskTracker → Option Error × AskTracker
begin_quiesce id t =
    if t.quiescing id
    then (some quiesced, t)
    else if exists (open_with id) t.asks
    then (some quiesce_has_open, t)
    else (none, record t { quiescing = update t.quiescing id true })

-- `EndQuiesce`
unfoldable pub end_quiesce : PeerId → AskTracker → AskTracker
end_quiesce id t = record t { quiescing = update t.quiescing id false }

-- `OpenCount`
unfoldable pub open_count : AskTracker → ℕ
open_count t = length (snapshot (λ a. not a.closed) t)

-- `TotalCount`
unfoldable pub total_count : AskTracker → ℕ
total_count t = length t.asks
