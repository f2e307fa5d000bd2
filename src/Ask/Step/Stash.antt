-- ===== src/Ask/Step/Stash.antt =====
-- `Step` for the calls on the pending-reply stash of daemon-go/service/ask_tracker.go.
use repowire.Prelude.{
  ℕ, String, Bool, true, false, refl, sym, inl, inr, Option, none, some, lookup, is_some,
  Bool-cases, Option-cases,
}
use repowire.Proto.{PeerId}
use repowire.Ask.Types.{AskerIdentity, AskTracker}
use repowire.Ask.Channel.{cancel_waiter, cancelled}
use repowire.Ask.Replies.{
  accepts_stash, set_pending_reply, or_else, mark_pending_reply_delivered, rebind_and_close,
  clear_pending_reply,
}
use repowire.Ask.Inv.{Inv}
use repowire.Ask.Step.{Step, Steps}
use repowire.Ask.Step.Rules.{Step-refl, touch-Step, finish-Steps}

pub set_pending_reply-Step :
    (cid framed : String) (identity : Option AskerIdentity) (allow : Bool) (now : ℕ)
    (t : AskTracker)
    → Inv t
    → Step t (set_pending_reply cid framed identity allow now t).1
unfolding set_pending_reply
set_pending_reply-Step cid framed identity allow now t h = elim (Option-cases (lookup cid t.asks)) [
  | inl gone ↦ rw (gone, set_pending_reply) (Step-refl t h)
  | inr (a, here) ↦ elim (Bool-cases (accepts_stash allow a)) [
    | inl fits ↦
        rw (here, set_pending_reply)
          (rw fits (touch-Step cid _ h here refl refl refl (λ o. (refl, refl))))
    | inr unfit ↦ rw (here, set_pending_reply) (rw unfit (Step-refl t h))
  ]
]

pub mark_pending_reply_delivered-Steps :
    (cid : String) (new_from : Option PeerId) (reason : String) (t : AskTracker)
    → Inv t
    → Steps t (mark_pending_reply_delivered cid new_from reason t)
unfolding mark_pending_reply_delivered cancel_waiter
mark_pending_reply_delivered-Steps cid new_from reason t h =
    elim (Option-cases (lookup cid t.asks)) [
      | inl gone ↦ rw (gone, mark_pending_reply_delivered) (false, t, refl, Step-refl t h)
      | inr (a, here) ↦
          let from = or_else new_from a.from_peer_id in
          let cleared = record a { from_peer_id = from; pending_reply = none } in
          let shut = record cleared { closed = true; close_reason = reason } in
          elim (Bool-cases (is_some a.pending_reply)) [
            | inr empty ↦
                rw (here, mark_pending_reply_delivered) (rw empty (false, t, refl, Step-refl t h))
            | inl stashed ↦ elim (Bool-cases a.closed) [
              | inl k ↦
                  rw (here, mark_pending_reply_delivered)
                    (rw stashed (
                      rw k (
                        true,
                        _,
                        refl,
                        touch-Step cid (record cleared { closed = true }) h here (sym k) refl refl
                            (λ o. cc),
                      )))
              | inr o ↦
                  rw (here, mark_pending_reply_delivered)
                    (rw stashed
                      (rw o (finish-Steps cid shut (cancelled (some reason)) true h here o refl)))
            ]
          ]
    ]

pub rebind_and_close-Steps :
    (cid : String) (new_from : PeerId) (reason : String) (t : AskTracker)
    → Inv t
    → Steps t (rebind_and_close cid new_from reason t)
unfolding rebind_and_close cancel_waiter
rebind_and_close-Steps cid new_from reason t h = elim (Option-cases (lookup cid t.asks)) [
  | inl gone ↦ rw (gone, rebind_and_close) (false, t, refl, Step-refl t h)
  | inr (a, here) ↦ elim (Bool-cases a.closed) [
    | inl k ↦ rw (here, rebind_and_close) (rw k (false, t, refl, Step-refl t h))
    | inr o ↦
        let a' = record a {
          from_peer_id = new_from;
          closed = true;
          close_reason = reason;
          pending_reply = none;
        } in
        rw (here, rebind_and_close)
          (rw o (finish-Steps cid a' (cancelled (some reason)) true h here o refl))
  ]
]

pub clear_pending_reply-Step :
    (cid : String) (t : AskTracker) → Inv t → Step t (clear_pending_reply cid t)
unfolding clear_pending_reply
clear_pending_reply-Step cid t h = elim (Option-cases (lookup cid t.asks)) [
  | inl gone ↦ rw (gone, clear_pending_reply) (Step-refl t h)
  | inr (a, here) ↦
      rw (here, clear_pending_reply)
        (touch-Step cid (record a { pending_reply = none }) h here refl refl refl
          (λ o. (refl, refl)))
]
