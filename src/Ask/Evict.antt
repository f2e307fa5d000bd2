-- ===== src/Ask/Evict.antt =====
-- The eviction loops of daemon-go/service/ask_tracker.go: `ForgetPeer` and `EvictExpired` collect
-- the keys of the doomed asks, and then close, cancel and delete each.
use repowire.Prelude.{
  String, Bool, true, false, ◌≡◌, refl, ◌∙◌, inl, inr, Option, none, some, List, [], ◌∷◌, ◌==◌,
  eq_iff, if◌then◌else◌, keep, length, map, lookup, erase, insert, lookup-insert, lookup-erase,
  UniqueKeys, arith, Bool-cases, Option-cases, is_some,
}
use repowire.Ask.Types.{Ask, AskTracker}
use repowire.Ask.Channel.{resolve_waiter, cancel_waiter, cancelled}
use repowire.Ask.Sweep.{doomed, evict_one, evict_all, evict_matching}
use repowire.Ask.Replies.{snapshot}
use repowire.Ask.Inv.{Inv, is_open}
use repowire.Ask.Inv.Finish.{finish}
use repowire.Ask.Inv.Touch.{remove, touch}

abbrev pub has_text : String → List String → Bool
has_text s [] = false
has_text s (x ∷ xs) = if x == s then true else has_text s xs

abbrev AllDifferent : List String → Type 0
AllDifferent [] = Unit
AllDifferent (x ∷ xs) = (has_text x xs ≡ false) × AllDifferent xs

-- What the removal of the asks that pass `p` leaves of an entry.
abbrev pub unless : (Ask → Bool) → Option Ask → Option Ask
unless p none = none
unless p (some a) = if p a then none else some a

abbrev passes : (Ask → Bool) → Option Ask → Bool
passes p none = false
passes p (some a) = p a

has_text-doomed :
    (p : Ask → Bool) (m : List (String × Ask)) (c : String)
    → UniqueKeys m
    → has_text c (doomed p m) ≡ passes p (lookup c m)
unfolding doomed lookup
has_text-doomed p [] c h = refl
has_text-doomed p ((d, a) ∷ m) c h =
    ground (arith, has_text-doomed p m c h.1, h.0, eq_iff d c, has_text-doomed p m d h.1)

doomed-AllDifferent :
    (p : Ask → Bool) (m : List (String × Ask)) → UniqueKeys m → AllDifferent (doomed p m)
unfolding doomed
doomed-AllDifferent p [] h = tt
doomed-AllDifferent p ((d, a) ∷ m) h =
    ground (arith, doomed-AllDifferent p m h.1, has_text-doomed p m d h.1, h.0)

length-doomed :
    (p : Ask → Bool) (m : List (String × Ask))
    → length (doomed p m) ≡ length (keep p (map (λ e. e.1) m))
unfolding doomed
length-doomed p [] = refl
length-doomed p ((d, a) ∷ m) = ground (arith, length-doomed p m)

abbrev Dropped : String → AskTracker → AskTracker → Type 0
Dropped cid t u =
    Inv u × ((c : String) → lookup c u.asks ≡ (if cid == c then none else lookup c t.asks))

-- Nobody waits for a closed ask.
pub closed_unwatched :
    (cid : String) (t : AskTracker)
    → Inv t
    → is_open (lookup cid t.asks) ≡ false
    → t.answer_waiters cid ≡ none
closed_unwatched cid t h k = elim (Option-cases (t.answer_waiters cid)) [
  | inl free ↦ free
  | inr (w, watched) ↦ cc (h.attached cid w watched)
]

drop_open :
    {t : AskTracker} {a : Ask} (cid : String)
    → Inv t
    → lookup cid t.asks ≡ some a
    → a.closed ≡ false
    → (u : AskTracker) × (evict_one cid t ≡ some u) × Dropped cid t u
unfolding evict_one cancel_waiter
drop_open {t} {a} cid h here o =
    let a' = record a { closed = true; close_reason = "evicted" } in
    let (u, step, inv, asks, free) = finish cid a' h here o refl (cancelled none) in
    (
      record u { asks = erase cid u.asks },
      ground arith,
      (
        remove cid inv free,
        λ c. lookup-erase cid c u.asks ∙ rw asks (ground (arith, lookup-insert cid c a' t.asks)),
      ),
    )

drop_closed :
    {t : AskTracker} {a : Ask} (cid : String)
    → Inv t
    → lookup cid t.asks ≡ some a
    → a.closed ≡ true
    → (u : AskTracker) × (evict_one cid t ≡ some u) × Dropped cid t u
unfolding evict_one cancel_waiter resolve_waiter
drop_closed {t} {a} cid h here k =
    let free = closed_unwatched cid t h (ground arith) in
    (
      record t { asks = erase cid (insert cid a t.asks) },
      ground arith,
      (
        remove cid (touch cid a h here refl (λ o. cc)) free,
        λ c.
            lookup-erase cid c (insert cid a t.asks) ∙ ground (arith, lookup-insert cid c a t.asks),
      ),
    )

evict_one-Dropped :
    {t : AskTracker} {a : Ask} (cid : String)
    → Inv t
    → lookup cid t.asks ≡ some a
    → (u : AskTracker) × (evict_one cid t ≡ some u) × Dropped cid t u
evict_one-Dropped {t} {a} cid h here = elim (Bool-cases a.closed) [
  | inl k ↦ drop_closed cid h here k
  | inr o ↦ drop_open cid h here o
]

abbrev AllPresent : List String → AskTracker → Type 0
AllPresent [] t = Unit
AllPresent (cid ∷ cids) t = (is_some (lookup cid t.asks) ≡ true) × AllPresent cids t

AllPresent-Dropped :
    (cids : List String) (cid : String) (t u : AskTracker)
    → has_text cid cids ≡ false
    → ((c : String) → lookup c u.asks ≡ (if cid == c then none else lookup c t.asks))
    → AllPresent cids t
    → AllPresent cids u
AllPresent-Dropped [] cid t u _ _ _ = tt
AllPresent-Dropped (c ∷ cids) cid t u other look h = (
  ground (arith, look c, eq_iff cid c, eq_iff c cid),
  AllPresent-Dropped cids cid t u (ground arith) look h.1,
)

present : (o : Option Ask) → is_some o ≡ true → (a : Ask) × (o ≡ some a)
present none h = cc
present (some a) h = (a, refl)

evict_all-Dropped :
    (cids : List String) (t : AskTracker)
    → Inv t
    → AllDifferent cids
    → AllPresent cids t
    → (u : AskTracker) × (evict_all cids t ≡ some u)
      × Inv u
      × ((c : String) → lookup c u.asks ≡ (if has_text c cids then none else lookup c t.asks))
unfolding evict_all
evict_all-Dropped [] t h d k = (t, refl, h, λ c. refl)
evict_all-Dropped (cid ∷ cids) t h d k =
    let (a, here) = present (lookup cid t.asks) k.0 in
    let (u, step, (inv, look)) = evict_one-Dropped cid h here in
    let (v, steps, inv', look') =
      evict_all-Dropped cids u inv d.1 (AllPresent-Dropped cids cid t u d.0 look k.1) in
    (v, ground arith, inv', λ c. look' c ∙ ground (arith, look c))

AllPresent-lookup :
    (cids : List String) (t : AskTracker)
    → ((c : String) → has_text c cids ≡ true → is_some (lookup c t.asks) ≡ true)
    → AllPresent cids t
AllPresent-lookup [] t h = tt
AllPresent-lookup (cid ∷ cids) t h =
    (h cid (ground (arith, eq_iff cid cid)), AllPresent-lookup cids t (λ c k. h c (ground arith)))

unless_of_passes : (p : Ask → Bool) (o : Option Ask) → (if passes p o then none else o) ≡ unless p o
unless_of_passes p none = refl
unless_of_passes p (some a) = refl

is_some_of_passes : (p : Ask → Bool) (o : Option Ask) → passes p o ≡ true → is_some o ≡ true
is_some_of_passes p none h = cc
is_some_of_passes p (some a) h = refl

-- An eviction goes through, counts the asks that pass its test, and removes those and no others.
pub evict_matching_lem :
    (p : Ask → Bool) (t : AskTracker)
    → Inv t
    → (u : AskTracker) × (evict_matching p t ≡ some (length (snapshot p t), u))
      × Inv u
      × ((c : String) → lookup c u.asks ≡ unless p (lookup c t.asks))
evict_matching_lem p t h =
    let (u, steps, inv, look) =
      evict_all-Dropped (doomed p t.asks) t h (doomed-AllDifferent p t.asks h.unique) (
        AllPresent-lookup (doomed p t.asks) t (λ c k.
          is_some_of_passes p (lookup c t.asks) (cc (has_text-doomed p t.asks c h.unique, k)))) in
    (
      u,
      ground (arith, steps, length-doomed p t.asks),
      inv,
      λ c. look c ∙ rw (has_text-doomed p t.asks c h.unique) (unless_of_passes p (lookup c t.asks)),
    )
