-- ===== src/Ask/Step.antt =====
-- The relation between the ask tracker (daemon-go/service/ask_tracker.go) before and after one
-- operation.
pub mod Rules
pub mod Basic
pub mod Stash
pub mod Rounds
pub mod Waits
use repowire.Prelude.{String, true, ◌≡◌, Option, none, some, lookup}
use repowire.Ask.Types.{Ask, AskTracker}
use repowire.Ask.Inv.{Inv}

-- What stands of a closed ask: it is gone, or its outcome is what it was.
abbrev pub SameOutcome : Ask → Option Ask → Type 0
SameOutcome a none = Unit
SameOutcome a (some b) =
    (b.closed ≡ true) × (b.close_reason ≡ a.close_reason) × (b.answer ≡ a.answer)

-- No change reopens a closed ask or rewrites its outcome.
abbrev pub KeepsOutcomes : AskTracker → AskTracker → Type 0
KeepsOutcomes t u =
    (c : String) (a : Ask)
    → lookup c t.asks ≡ some a
    → a.closed ≡ true
    → SameOutcome a (lookup c u.asks)

pub record Step (t u : AskTracker) : Type 0 where
  pub inv : Inv u
  pub outcomes : KeepsOutcomes t u

-- The call does not fault, and it makes a step.
abbrev pub Steps : {A : Type 0} → AskTracker → Option (A × AskTracker) → Type 0
Steps {A} t x = (r : A) × (u : AskTracker) × (x ≡ some (r, u)) × Step t u
