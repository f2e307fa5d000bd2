-- ===== src/Ask/Step/Basic.antt =====
-- `Step` for `Register`, `Close`, `Answer` and `CaptureReply` of daemon-go/service/ask_tracker.go.
use repowire.Json.{Fields}
use repowire.Prelude.{
  ℕ, String, true, ◌||◌, refl, inl, inr, none, some, List, lookup, is_some, arith, Bool-cases,
  Option-cases,
}
use repowire.Ask.Types.{ask_not_found, already_answered, Answer, RegisterAskParams, AskTracker}
use repowire.Ask.Channel.{cancel_waiter, cancelled}
use repowire.Ask.Ops.{
  ok, err, new_ask, mint_cid, register, close, answered, answer, validate_answer, capture_reply,
}
use repowire.Ask.Inv.{Inv}
use repowire.Ask.Step.{Step, Steps}
use repowire.Ask.Step.Rules.{Step-refl, touch-Step, add-Step, finish-Steps}

pub register-Step :
    (token : String) (now : ℕ) (p : RegisterAskParams) (t : AskTracker)
    → Inv t
    → Step t (register token now p t).1
unfolding register
register-Step token now p t h = elim (Bool-cases (t.quiescing p.to_peer_id)) [
  | inl to ↦ rw (to, register) (Step-refl t h)
  | inr to ↦ elim (Bool-cases (t.quiescing p.from_peer_id)) [
    | inl from ↦ rw (to, from, register) (Step-refl t h)
    | inr from ↦ elim (Option-cases (lookup (mint_cid token p.correlation_id) t.asks)) [
      | inl fresh ↦
          rw (to, from, fresh, register)
            (add-Step (mint_cid token p.correlation_id)
              (new_ask now (mint_cid token p.correlation_id) p) h fresh refl to from)
      | inr (a, known) ↦ rw (to, from, known, register) (Step-refl t h)
    ]
  ]
]

pub close-Steps : (cid reason : String) (t : AskTracker) → Inv t → Steps t (close cid reason t)
unfolding close cancel_waiter
close-Steps cid reason t h = elim (Option-cases (lookup cid t.asks)) [
  | inl gone ↦ rw (gone, close) (none, t, refl, Step-refl t h)
  | inr (a, here) ↦ elim (Bool-cases a.closed) [
    | inl shut ↦ rw (here, close) (rw shut (none, t, refl, Step-refl t h))
    | inr o ↦
        let a' = record a { closed = true; close_reason = reason } in
        rw (here, close)
          (rw o (finish-Steps cid a' (cancelled (some reason)) (some a') h here o refl))
  ]
]

pub answer-Steps :
    (cid : String) (ans : Answer) (now : ℕ) (t : AskTracker)
    → Inv t
    → Steps t (answer cid ans now t)
unfolding answer
answer-Steps cid ans now t h = elim (Option-cases (lookup cid t.asks)) [
  | inl gone ↦ rw (gone, answer) (err ask_not_found, t, refl, Step-refl t h)
  | inr (a, here) ↦ elim (Bool-cases (a.closed || is_some a.answer)) [
    | inl over ↦ rw (here, answer) (rw over (err already_answered, t, refl, Step-refl t h))
    | inr o ↦ elim (Option-cases (validate_answer a.question ans)) [
      | inr (e, bad) ↦ rw (here, answer) (rw o (rw bad (err e, t, refl, Step-refl t h)))
      | inl fine ↦
          rw (here, answer)
            (rw o (
              rw fine (
                finish-Steps cid (answered a ans now) ans (ok (answered a ans now)) h here
                  (ground arith) refl)))
    ]
  ]
]

pub capture_reply-Step :
    (cid reply : String) (attachments : List Fields) (now : ℕ) (t : AskTracker)
    → Inv t
    → Step t (capture_reply cid reply attachments now t)
unfolding capture_reply
capture_reply-Step cid reply attachments now t h = elim (Option-cases (lookup cid t.asks)) [
  | inl gone ↦ rw (gone, capture_reply) (Step-refl t h)
  | inr (a, here) ↦ elim (Bool-cases (is_some a.reply_text)) [
    | inl old ↦ rw (here, capture_reply) (rw old (Step-refl t h))
    | inr new ↦
        rw (here, capture_reply)
          (rw new (touch-Step cid _ h here refl refl refl (λ o. (refl, refl))))
  ]
]
