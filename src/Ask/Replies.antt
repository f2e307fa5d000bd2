-- ===== src/Ask/Replies.antt =====
-- The pending-reply stash of daemon-go/service/ask_tracker.go: a reply whose first delivery failed.
use mathlib.Core.Option
use repowire.Prelude.{
  ℕ, ◌+◌, String, Bool, true, false, ◌&&◌, ◌||◌, ◌==◌, Option, none, some, if◌then◌else◌, List,
  keep, map, lookup, is_some, ltb,
}
use repowire.Proto.{PeerId, AgentType, claude_code, open_code, codex, pi, mcp_http}
use repowire.Ask.Types.{AskerIdentity, Ask, AskTracker}
use repowire.Ask.Channel.{cancel_waiter}
use repowire.Ask.Ops.{store}

-- An answered structured question may carry a redelivery although it is closed.
unfoldable pub accepts_stash : Bool → Ask → Bool
accepts_stash allow_answered_question a =
    if a.closed
    then allow_answered_question
      && is_some a.question
      && is_some a.answer
      && a.close_reason == "answered"
    else true

-- `SetPendingReply`
unfoldable pub set_pending_reply :
    String → String → Option AskerIdentity → Bool → ℕ → AskTracker → Bool × AskTracker
unfolding accepts_stash
set_pending_reply cid framed identity allow now t = elim (lookup cid t.asks) [
  | none ↦ (false, t)
  | some a ↦
      if accepts_stash allow a
      then (
        true,
        store cid
            (record a {
              pending_reply = some framed;
              asker_identity = identity;
              pending_reply_at = some now;
            })
            t,
      )
      else (false, t)
]

abbrev pub or_else : Option PeerId → PeerId → PeerId
or_else none id = id
or_else (some id') id = id'

-- `MarkPendingReplyDelivered`
unfoldable pub mark_pending_reply_delivered :
    String → Option PeerId → String → AskTracker → Option (Bool × AskTracker)
mark_pending_reply_delivered cid new_from reason t = elim (lookup cid t.asks) [
  | none ↦ some (false, t)
  | some a ↦
      let from = or_else new_from a.from_peer_id in
      let cleared = record a { from_peer_id = from; pending_reply = none } in
      let shut = record cleared { closed = true; close_reason = reason } in
      if is_some a.pending_reply
      then (if a.closed
          then some (true, store cid cleared t)
          else Option.map (λ u. (true, u)) (cancel_waiter cid (some reason) (store cid shut t)))
      else some (false, t)
]

-- `RebindAndClose`
unfoldable pub rebind_and_close : String → PeerId → String → AskTracker → Option (Bool × AskTracker)
rebind_and_close cid new_from reason t = elim (lookup cid t.asks) [
  | none ↦ some (false, t)
  | some a ↦
      let a' = record a {
        from_peer_id = new_from;
        closed = true;
        close_reason = reason;
        pending_reply = none;
      } in
      if a.closed
      then some (false, t)
      else Option.map (λ u. (true, u)) (cancel_waiter cid (some reason) (store cid a' t))
]

-- `ClearPendingReply`
unfoldable pub clear_pending_reply : String → AskTracker → AskTracker
clear_pending_reply cid t = elim (lookup cid t.asks) [
  | none ↦ t
  | some a ↦ store cid (record a { pending_reply = none }) t
]

abbrev pub snapshot : (Ask → Bool) → AskTracker → List Ask
snapshot p t = keep p (map (λ e. e.1) t.asks)

-- `TakePendingRepliesForAsker`
unfoldable pub take_pending_replies_for_asker : PeerId → AskTracker → List Ask
take_pending_replies_for_asker id = snapshot (λ a. a.from_peer_id == id && is_some a.pending_reply)

unfoldable pub same_backend : AgentType → AgentType → Bool
same_backend claude_code claude_code = true
same_backend open_code open_code = true
same_backend codex codex = true
same_backend pi pi = true
same_backend mcp_http mcp_http = true
same_backend _ _ = false

unfoldable pub same_identity : AskerIdentity → AskerIdentity → Bool
unfolding same_backend
same_identity a b =
    a.display_name == b.display_name
    && a.circle == b.circle
    && same_backend a.backend b.backend
    && a.path == b.path
    && a.machine == b.machine

unfoldable pub matches_identity : Option AskerIdentity → AskerIdentity → Bool
unfolding same_identity
matches_identity none id = false
matches_identity (some ident) id = same_identity ident id

-- `TakeOrphanPendingRepliesMatching`: the stashes of that identity whose asker is not live.
unfoldable pub take_orphan_pending_replies_matching :
    AskerIdentity → (PeerId → Bool) → AskTracker → List Ask
unfolding matches_identity
take_orphan_pending_replies_matching id live = snapshot (λ a.
    is_some a.pending_reply
    && matches_identity a.asker_identity id
    && (if live a.from_peer_id then false else true))

abbrev pub involves : PeerId → Ask → Bool
involves id a = a.to_peer_id == id || a.from_peer_id == id

-- `SnapshotPendingRepliesForPeer`
unfoldable pub snapshot_pending_replies_for_peer : PeerId → AskTracker → List Ask
snapshot_pending_replies_for_peer id = snapshot (λ a. is_some a.pending_reply && involves id a)

-- `CreatedAt.Before(now - ttl)`
abbrev pub is_expired : ℕ → ℕ → Ask → Bool
is_expired now ttl a = ltb (a.created_at + ttl) now

-- `SnapshotExpiredPendingReplies`
unfoldable pub snapshot_expired_pending_replies : ℕ → AskTracker → List Ask
snapshot_expired_pending_replies now t =
    snapshot (λ a. is_expired now t.ttl a && is_some a.pending_reply) t
