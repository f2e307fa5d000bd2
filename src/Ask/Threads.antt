-- ===== src/Ask/Threads.antt =====
-- What single calls on the ask tracker (daemon-go/service/ask_tracker.go) do to a thread.
use repowire.Prelude.{
  ℕ, String, Option, List, [], insert, subst, sym, ◌⊎◌, true, false, ◌≡◌, ◌||◌, refl, inl, inr,
  none, some, lookup, lookup-insert, eq_iff, eq_refl, arith, is_some, ◌==◌, Bool-cases,
  Option-cases,
}
use repowire.Ask.Types.{already_answered, quiesced, Answer, Ask, RegisterAskParams, AskTracker}
use repowire.Ask.Ops.{
  Result, ok, err, new_ask, mint_cid, register, get, answered, answer, validate_answer, store,
}
use repowire.Ask.Inv.{Inv}
use repowire.Ask.Inv.Finish.{finish}

-- An ask just opened: what the caller supplied, and nothing else yet.
pub record OpenedBy (now : ℕ) (cid : String) (p : RegisterAskParams) (a : Ask) : Type 0 where
  pub id : a.correlation_id ≡ cid
  pub asker : (a.from_peer_id ≡ p.from_peer_id) × (a.from_peer_name ≡ p.from_peer_name)
  pub asked : (a.to_peer_id ≡ p.to_peer_id) × (a.to_peer_name ≡ p.to_peer_name)
  pub from_session : a.from_repowire_session_id ≡ p.from_repowire_session_id
  pub to_session : a.to_repowire_session_id ≡ p.to_repowire_session_id
  pub thread : (a.reply_to ≡ p.reply_to) × (a.parent_id ≡ p.parent_id)
  pub content : (a.text ≡ p.text) × (a.question ≡ p.question)
  pub opened : (a.created_at ≡ now) × (a.closed ≡ false) × (a.close_reason ≡ "")
  pub unanswered : (a.answer ≡ none) × (a.reply_text ≡ none) × (a.replied_at ≡ none)
  pub unstashed : (a.pending_reply ≡ none) × (a.pending_reply_at ≡ none) × (a.asker_identity ≡ none)
  pub unattached : a.reply_attachments ≡ []
  pub delivery :
      ((p.reply_delivery ≡ "") × (a.reply_delivery ≡ "push"))
      ⊎ (((p.reply_delivery == "") ≡ false) × (a.reply_delivery ≡ p.reply_delivery))

-- What is stored under the id, by what was stored there before.
abbrev pub Stored : ℕ → String → RegisterAskParams → Option Ask → Option Ask → Type 0
Stored now cid p (some a) after = after ≡ some a
Stored now cid p none none = ⊥
Stored now cid p none (some b) = OpenedBy now cid p b

new_ask-OpenedBy :
    (now : ℕ) (cid : String) (p : RegisterAskParams) → OpenedBy now cid p (new_ask now cid p)
unfolding new_ask
new_ask-OpenedBy now cid p = record {
  id = refl;
  asker = (refl, refl);
  asked = (refl, refl);
  from_session = refl;
  to_session = refl;
  thread = (refl, refl);
  content = (refl, refl);
  opened = (refl, refl, refl);
  unanswered = (refl, refl, refl);
  unstashed = (refl, refl, refl);
  unattached = refl;
  delivery = elim (Bool-cases (p.reply_delivery == "")) [
    | inl is ↦ inl (ground (arith, is, eq_iff p.reply_delivery ""), rw is refl)
    | inr is ↦ inr (is, rw is refl)
  ];
}

-- What `Register` must answer: a refusal, or the id of an ask that is stored afterwards.
abbrev pub RegisterSpec :
    String → ℕ → RegisterAskParams → AskTracker → Result String × AskTracker → Type 0
RegisterSpec token now p t (err e, u) =
    (e ≡ quiesced) × (u ≡ t) × ((t.quiescing p.to_peer_id || t.quiescing p.from_peer_id) ≡ true)
RegisterSpec token now p t (ok cid, u) =
    (cid ≡ mint_cid token p.correlation_id)
    × ((t.quiescing p.to_peer_id || t.quiescing p.from_peer_id) ≡ false)
    × Stored now cid p (get cid t) (get cid u)
    × ((c : String) → (cid == c) ≡ false → get c u ≡ get c t)

insert_self :
    (cid : String) (a : Ask) (asks : List (String × Ask)) → lookup cid (insert cid a asks) ≡ some a
insert_self cid a asks = ground (arith, lookup-insert cid cid a asks, eq_iff cid cid)

fresh-Stored :
    (now : ℕ) (cid : String) (p : RegisterAskParams) (t : AskTracker)
    → lookup cid t.asks ≡ none
    → Stored now cid p (get cid t) (get cid (store cid (new_ask now cid p) t))
unfolding get
fresh-Stored now cid p t fresh =
    let a = new_ask now cid p in
    subst (λ b. Stored now cid p b (lookup cid (insert cid a t.asks))) (sym fresh)
      (subst (Stored now cid p none) (sym (insert_self cid a t.asks)) (new_ask-OpenedBy now cid p))

known-Stored :
    (now : ℕ) (cid : String) (p : RegisterAskParams) (t : AskTracker) (a : Ask)
    → lookup cid t.asks ≡ some a
    → Stored now cid p (get cid t) (get cid t)
unfolding get
known-Stored now cid p t a known = subst (λ b. Stored now cid p b b) (sym known) refl

-- `Register` refuses exactly when an endpoint is in the middle of a switch, and then changes
-- nothing. Otherwise it returns the supplied or minted id; a known ask is kept as it is, an unknown
-- one is stored open, created now, unanswered, with every field that was given (a reply is pushed
-- when no delivery was given); every other ask is untouched.
pub register_lem :
    (token : String) (now : ℕ) (p : RegisterAskParams) (t : AskTracker)
    → RegisterSpec token now p t (register token now p t)
unfolding register get
register_lem token now p t =
    let cid = mint_cid token p.correlation_id in
    elim (Bool-cases (t.quiescing p.to_peer_id)) [
      | inl to ↦ rw (to, register, RegisterSpec) (refl, refl, rw to refl)
      | inr to ↦ elim (Bool-cases (t.quiescing p.from_peer_id)) [
        | inl from ↦ rw (to, from, register, RegisterSpec) (refl, refl, rw (to, from) refl)
        | inr from ↦ elim (Option-cases (lookup cid t.asks)) [
          | inl fresh ↦
              rw (to, from, fresh, register, RegisterSpec)
                (
                  refl,
                  rw (to, from) refl,
                  fresh-Stored now cid p t fresh,
                  λ c other. ground (arith, lookup-insert cid c (new_ask now cid p) t.asks),
                )
          | inr (a, known) ↦
              rw (to, from, known, register, RegisterSpec)
                (refl, rw (to, from) refl, known-Stored now cid p t a known, λ c other. refl)
        ]
      ]
    ]

-- What an accepted answer found: an open ask, and an answer that its question allows.
pub answer-ok :
    (cid : String) (ans : Answer) (now : ℕ) (t u : AskTracker) (b : Ask)
    → answer cid ans now t ≡ some (ok b, u)
    → (a : Ask) × (lookup cid t.asks ≡ some a)
      × (a.closed ≡ false)
      × (validate_answer a.question ans ≡ none)
unfolding answer
answer-ok cid ans now t u b e = elim (Option-cases (lookup cid t.asks)) [
  | inl gone ↦ absurd (ground arith)
  | inr (a, here) ↦ elim (Bool-cases (a.closed || is_some a.answer)) [
    | inl over ↦ absurd (ground arith)
    | inr o ↦ elim (Option-cases (validate_answer a.question ans)) [
      | inr (bad, v) ↦ absurd (ground arith)
      | inl fine ↦ (a, here, ground arith, fine)
    ]
  ]
]

-- Answering is first come, first served. An accepted answer is stored, and closes the ask as
-- answered; the next one, whatever it is, is refused and changes nothing.
pub answer-answer :
    (cid : String) (first second : Answer) (now later : ℕ) (t u : AskTracker) (b : Ask)
    → Inv t
    → answer cid first now t ≡ some (ok b, u)
    → (get cid u ≡ some b)
      × (b.answer ≡ some first)
      × (b.closed ≡ true)
      × (b.close_reason ≡ "answered")
      × (answer cid second later u ≡ some (err already_answered, u))
unfolding get answer
answer-answer cid first second now later t u b h e =
    let (a, here, o, fine) = answer-ok cid first now t u b e in
    let (v, step, inv, asks, _) = finish cid (answered a first now) h here o refl first in
    let look = lookup-insert cid cid (answered a first now) t.asks in
    let stored : lookup cid v.asks ≡ some (answered a first now) = rw (asks, look, eq_refl) refl in
    let blank = h.unanswered cid a here o in
    (
      ground (arith, stored),
      ground (arith, stored),
      ground (arith, stored),
      ground (arith, stored),
      ground (arith, stored),
    )
