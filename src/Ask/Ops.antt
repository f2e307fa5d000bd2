-- ===== src/Ask/Ops.antt =====
-- Registering, closing and answering asks (daemon-go/service/ask_tracker.go). The clock `now` and
-- the random token of `hex8` are arguments. Every function is one section under the mutex.
use Prim.Native.String.{◌++◌}
use mathlib.Core.Option
use repowire.Json.{Fields, Items, nil, cons, obj, at, as_text, as_array}
use repowire.Prelude.{
  ℕ, String, Bool, true, false, ◌||◌, ◌==◌, Option, none, some, if◌then◌else◌, List, [], keep, map,
  lookup, insert, is_some, is_text, leb, length,
}
use repowire.Ask.Types.{
  Error, ask_not_found, already_answered, quiesced, invalid_answer, Answer, Ask, RegisterAskParams,
  AskTracker, default_ask_ttl,
}
use repowire.Ask.Channel.{resolve_waiter, cancel_waiter}

pub data Result {ℓ} (A : Type ℓ) : Type ℓ where
  ok : A → Result A
  err : Error → Result A

-- `NewAskTracker`; a ttl that is not positive is 0.
unfoldable pub new_ask_tracker : ℕ → AskTracker
new_ask_tracker ttl = record {
  asks = [];
  ttl = if leb ttl 0 then default_ask_ttl else ttl;
  last_eviction = none;
  quiescing = λ _. false;
  answer_waiters = λ _. none;
  buffer = λ _. none;
  next_channel = 0;
}

-- The ask that `Register` stores.
unfoldable pub new_ask : ℕ → String → RegisterAskParams → Ask
new_ask now cid p = record {
  correlation_id = cid;
  from_peer_id = p.from_peer_id;
  from_peer_name = p.from_peer_name;
  to_peer_id = p.to_peer_id;
  to_peer_name = p.to_peer_name;
  text = p.text;
  from_repowire_session_id = p.from_repowire_session_id;
  to_repowire_session_id = p.to_repowire_session_id;
  reply_to = p.reply_to;
  parent_id = p.parent_id;
  created_at = now;
  closed = false;
  close_reason = "";
  pending_reply = none;
  pending_reply_at = none;
  asker_identity = none;
  reply_text = none;
  replied_at = none;
  reply_delivery = if p.reply_delivery == "" then "push" else p.reply_delivery;
  reply_attachments = [];
  question = p.question;
  answer = none;
}

-- `cid`, or `"ask-" + hex8()` if it is empty
unfoldable pub mint_cid : String → String → String
mint_cid token cid = if cid == "" then "ask-" ++ token else cid

abbrev pub store : String → Ask → AskTracker → AskTracker
store cid a t = record t { asks = insert cid a t.asks }

unfoldable pub register : String → ℕ → RegisterAskParams → AskTracker → Result String × AskTracker
unfolding new_ask mint_cid
register token now p t =
    let cid = mint_cid token p.correlation_id in
    if t.quiescing p.to_peer_id
    then (err quiesced, t)
    else if t.quiescing p.from_peer_id
    then (err quiesced, t)
    else if is_some (lookup cid t.asks)
    then (ok cid, t)
    else (ok cid, store cid (new_ask now cid p) t)

unfoldable pub get : String → AskTracker → Option Ask
get cid t = lookup cid t.asks

unfoldable pub list_by_parent : String → AskTracker → List Ask
list_by_parent parent t = keep (λ a. is_text a.parent_id parent) (map (λ e. e.1) t.asks)

unfoldable pub close : String → String → AskTracker → Option (Option Ask × AskTracker)
close cid reason t = elim (lookup cid t.asks) [
  | none ↦ some (none, t)
  | some a ↦
      let a' = record a { closed = true; close_reason = reason } in
      if a.closed
      then some (none, t)
      else Option.map (λ u. (some a', u)) (cancel_waiter cid (some reason) (store cid a' t))
]

-- `questionHasOption`
unfoldable pub option_listed : Items → String → Bool
option_listed nil id = false
option_listed (cons (obj m) rest) id =
    if is_text (as_text (at "id" m)) id then true else option_listed rest id
option_listed (cons _ rest) id = option_listed rest id

unfoldable pub question_has_option : Fields → String → Bool
unfolding option_listed
question_has_option question id = elim (as_array (at "options" question)) [
  | some opts ↦ option_listed opts id
  | none ↦ false
]

-- The outcomes that no question constrains.
unfoldable pub is_unconditional : String → Bool
is_unconditional outcome =
    outcome == "timed_out"
    || outcome == "cancelled"
    || outcome == "acknowledged"
    || outcome == "denied"

unfoldable pub validate_choice : Fields → Option String → Option Error
unfolding question_has_option
validate_choice question none = some (invalid_answer "choice question requires an option_id")
validate_choice question (some id) =
    if question_has_option question id
    then none
    else some (invalid_answer ("unknown option_id: " ++ id))

-- `validateAnswer`: `none` is the nil error.
unfoldable pub validate_answer : Option Fields → Answer → Option Error
unfolding is_unconditional validate_choice
validate_answer none ans = none
validate_answer (some question) ans =
    if is_unconditional ans.outcome
    then none
    else if is_text (as_text (at "kind" question)) "choice"
    then validate_choice question ans.option_id
    else none

-- `Answer` keeps a reply text that is there already.
unfoldable pub answered : Ask → Answer → ℕ → Ask
answered a ans now =
    let fresh =
      if is_some ans.text then (if is_some a.reply_text then false else true) else false in
    record a {
      answer = some ans;
      reply_text = if fresh then ans.text else a.reply_text;
      replied_at = if fresh then some now else a.replied_at;
      closed = true;
      close_reason = "answered";
    }

unfoldable pub answer : String → Answer → ℕ → AskTracker → Option (Result Ask × AskTracker)
unfolding answered
answer cid ans now t = elim (lookup cid t.asks) [
  | none ↦ some (err ask_not_found, t)
  | some a ↦
      if a.closed || is_some a.answer
      then some (err already_answered, t)
      else elim (validate_answer a.question ans) [
        | some e ↦ some (err e, t)
        | none ↦
            Option.map (λ u. (ok (answered a ans now), u))
              (resolve_waiter cid ans (store cid (answered a ans now) t))
      ]
]

-- `CaptureReply`
unfoldable pub capture_reply : String → String → List Fields → ℕ → AskTracker → AskTracker
capture_reply cid reply attachments now t = elim (lookup cid t.asks) [
  | none ↦ t
  | some a ↦
      if is_some a.reply_text
      then t
      else store cid
          (record a {
            reply_text = some reply;
            reply_attachments =
                if leb (length attachments) 0 then a.reply_attachments else attachments;
            replied_at = some now;
          })
          t
]
