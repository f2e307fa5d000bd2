-- ===== src/Ask/Inv.antt =====
-- The invariant of the ask tracker (daemon-go/service/ask_tracker.go), and what each elementary
-- change of the tracker does to it. The operations are compositions of these changes.
pub mod Finish
pub mod Touch
pub mod Waiters
use repowire.Prelude.{
  ℕ, ◌+◌, ◌<◌, String, Bool, true, false, ◌≡◌, ◌≢◌, refl, ◌⊎◌, inl, inr, Option, none, some, List,
  ◌==◌, eq_iff, eq_refl, if◌then◌else◌, lookup, insert, erase, lookup-insert, lookup-erase,
  UniqueKeys, update, update_at, arith, Bool-cases, Option-cases,
}
use repowire.Ask.Types.{Answer, Ask, AskTracker}
use repowire.Ask.Ops.{store}

abbrev pub is_open : Option Ask → Bool
is_open none = false
is_open (some a) = if a.closed then false else true

-- No channel in the waiter table is full, two asks share none, and each belongs to an open ask; no
-- open ask has an answer or an endpoint in the middle of a switch.
pub record Inv (t : AskTracker) : Type 0 where
  pub unique : UniqueKeys t.asks
  pub empty : (c : String) (w : ℕ) → t.answer_waiters c ≡ some w → t.buffer w ≡ none
  pub minted : (c : String) (w : ℕ) → t.answer_waiters c ≡ some w → w < t.next_channel
  pub separate :
      (c d : String) (w : ℕ) → t.answer_waiters c ≡ some w → t.answer_waiters d ≡ some w → c ≡ d
  pub attached :
      (c : String) (w : ℕ) → t.answer_waiters c ≡ some w → is_open (lookup c t.asks) ≡ true
  pub unanswered :
      (c : String) (a : Ask) → lookup c t.asks ≡ some a → a.closed ≡ false → a.answer ≡ none
  pub barrier :
      (c : String) (a : Ask)
      → lookup c t.asks ≡ some a
      → a.closed ≡ false
      → (t.quiescing a.to_peer_id ≡ false) × (t.quiescing a.from_peer_id ≡ false)
