-- ===== src/Ask/Step/Rules.antt =====
-- Rules for `Step`: one for each elementary change of the tracker.
use mathlib.Core.Option
use repowire.Prelude.{
  String, true, false, ◌≡◌, refl, Option, none, some, eq_iff, lookup, lookup-insert, arith,
}
use repowire.Ask.Types.{Answer, Ask, AskTracker}
use repowire.Ask.Channel.{resolve_waiter}
use repowire.Ask.Ops.{store}
use repowire.Ask.Inv.{Inv}
use repowire.Ask.Inv.Finish.{finish}
use repowire.Ask.Inv.Touch.{touch, add}
use repowire.Ask.Step.{SameOutcome, Step, Steps}

pub SameOutcome-refl : (a : Ask) (o : Option Ask) → o ≡ some a → a.closed ≡ true → SameOutcome a o
SameOutcome-refl a o e k = rw e (k, refl, refl)

-- A change that leaves the ask table alone.
pub Step-asks_set : {t u : AskTracker} → Inv u → u.asks ≡ t.asks → Step t u
Step-asks_set {t} {u} h e = record {
  inv = h;
  outcomes = λ c a p k. SameOutcome-refl a (lookup c u.asks) (rw e p) k;
}

-- A step followed by a change that leaves the ask table alone.
pub Step-asks_then : {t u v : AskTracker} → Step t u → Inv v → v.asks ≡ u.asks → Step t v
Step-asks_then {t} {u} {v} s h e = record {
  inv = h;
  outcomes = λ c a p k. rw e (s.outcomes c a p k);
}

pub Step-refl : (t : AskTracker) → Inv t → Step t t
Step-refl t h = Step-asks_set h refl

-- A stored ask that keeps its endpoints while it is open, and its outcome always.
pub touch-Step :
    {t : AskTracker} {a : Ask} (cid : String) (a' : Ask)
    → Inv t
    → lookup cid t.asks ≡ some a
    → a'.closed ≡ a.closed
    → a'.answer ≡ a.answer
    → a'.close_reason ≡ a.close_reason
    → (a.closed ≡ false → (a'.to_peer_id ≡ a.to_peer_id) × (a'.from_peer_id ≡ a.from_peer_id))
    → Step t (store cid a' t)
touch-Step {t} {a} cid a' h here same ans reason ends = record {
  inv = touch cid a' h here same (λ o. (ans, (ends o).0, (ends o).1));
  outcomes = λ c b p k. ground (arith, lookup-insert cid c a' t.asks, eq_iff cid c);
}

pub add-Step :
    {t : AskTracker} (cid : String) (a' : Ask)
    → Inv t
    → lookup cid t.asks ≡ none
    → a'.answer ≡ none
    → t.quiescing a'.to_peer_id ≡ false
    → t.quiescing a'.from_peer_id ≡ false
    → Step t (store cid a' t)
add-Step {t} cid a' h fresh blank to from = record {
  inv = add cid a' h fresh blank to from;
  outcomes = λ c b p k. ground (arith, lookup-insert cid c a' t.asks, eq_iff cid c);
}

-- An open ask ends and its waiter is resolved: the section goes through.
pub finish-Steps :
    {A : Type 0} {t : AskTracker} {a : Ask} (cid : String) (a' : Ask) (ans : Answer) (r : A)
    → Inv t
    → lookup cid t.asks ≡ some a
    → a.closed ≡ false
    → a'.closed ≡ true
    → Steps t (Option.map (λ u. (r, u)) (resolve_waiter cid ans (store cid a' t)))
finish-Steps {t} {a} cid a' ans r h here o shut =
    let (u, step, inv, asks, _) = finish cid a' h here o shut ans in
    (
      r,
      u,
      ground arith,
      record {
        inv = inv;
        outcomes = λ c b p k. rw asks (ground (arith, lookup-insert cid c a' t.asks, eq_iff cid c));
      },
    )
