-- ===== src/Registry/Latest.antt =====
-- Lemmas on Registry/Resolve's `latest`: the peer of a list that was seen last.
use repowire.Prelude.{
  ℕ, ◌≤◌, ◌⊎◌, Bool, true, false, ◌≡◌, Option, none, some, All, List, [], ◌∷◌, Bool-cases,
  Option-cases, inl, inr, keep, map, arith, subst,
}
use repowire.Proto.{Peer}
use repowire.Registry.Types.{Entry}
use repowire.Registry.Resolve.{latest, last_seen_after, peer_of}
use repowire.Registry.Claims.{keep_some}

pub latest-All :
    (P : Peer → Type 0) (f : Peer → Bool) (xs : List Entry) (o : Option Peer) (p : Peer)
    → All (λ e. P e.1.peer) xs
    → All P (keep_some o)
    → latest o (keep f (map peer_of xs)) ≡ some p
    → P p
unfolding latest
latest-All P f [] none p a t h = ground (arith, h)
latest-All P f [] (some b) p a (pb, t) h = ground (arith, h, pb)
latest-All P f (x ∷ xs) none p (px, a) t h = elim (Bool-cases (f x.1.peer)) [
  | inl is ↦ latest-All P f xs (some x.1.peer) p a (px, tt) (ground (arith, h, is))
  | inr is ↦ latest-All P f xs none p a tt (ground (arith, h, is))
]
latest-All P f (x ∷ xs) (some b) p (px, a) (pb, t) h = elim (Bool-cases (f x.1.peer)) [
  | inl is ↦ elim (Bool-cases (last_seen_after x.1.peer b)) [
    | inl newer ↦ latest-All P f xs (some x.1.peer) p a (px, tt) (ground (arith, h, is, newer))
    | inr older ↦ latest-All P f xs (some b) p a (pb, tt) (ground (arith, h, is, older))
  ]
  | inr is ↦ latest-All P f xs (some b) p a (pb, tt) (ground (arith, h, is))
]

-- The first time is not after the second; never is before any time.
abbrev pub NoLater : Option ℕ → Option ℕ → Type 0
NoLater none y = Unit
NoLater (some x) none = ⊥
NoLater (some x) (some y) = x ≤ y

NoLater-refl : (x : Option ℕ) → NoLater x x
NoLater-refl none = tt
NoLater-refl (some x) = omega arith

NoLater-trans : (x y z : Option ℕ) → NoLater x y → NoLater y z → NoLater x z
NoLater-trans none y z h k = tt
NoLater-trans (some x) none z h k = absurd h
NoLater-trans (some x) (some y) none h k = absurd k
NoLater-trans (some x) (some y) (some z) h k = omega (arith, h, k)

last_seen_after-NoLater :
    (x b : Peer) → last_seen_after x b ≡ true → NoLater b.last_seen x.last_seen
unfolding last_seen_after
last_seen_after-NoLater x b newer = elim (Option-cases x.last_seen) [
  | inl never ↦ absurd (ground (arith, never, newer))
  | inr (s, seen) ↦ elim (Option-cases b.last_seen) [
    | inl never ↦ rw never tt
    | inr (t, before) ↦ rw (seen, before) (ground (arith, newer, seen, before))
  ]
]

not_after-NoLater : (x b : Peer) → last_seen_after x b ≡ false → NoLater x.last_seen b.last_seen
unfolding last_seen_after
not_after-NoLater x b older = elim (Option-cases x.last_seen) [
  | inl never ↦ rw never tt
  | inr (s, seen) ↦ elim (Option-cases b.last_seen) [
    | inl never ↦ absurd (ground (arith, never, seen, older))
    | inr (t, before) ↦ rw (seen, before) (ground (arith, older, seen, before))
  ]
]

-- The best of a list was seen no earlier than what it began with, nor than any that counts.
abbrev pub Newest : (Peer → Bool) → Option Peer → Peer → List Entry → Type 0
Newest f o p xs =
    All (λ b. NoLater b.last_seen p.last_seen) (keep_some o)
    × All (λ e. (f e.1.peer ≡ false) ⊎ NoLater e.1.peer.last_seen p.last_seen) xs

pub latest-Newest :
    (f : Peer → Bool) (xs : List Entry) (o : Option Peer) (p : Peer)
    → latest o (keep f (map peer_of xs)) ≡ some p
    → Newest f o p xs
unfolding latest
latest-Newest f [] none p h = (tt, tt)
latest-Newest f [] (some b) p h =
    let e : b ≡ p = ground (arith, h) in
    ((subst (λ (q : Peer). NoLater b.last_seen q.last_seen) e (NoLater-refl b.last_seen), tt), tt)
latest-Newest f (x ∷ xs) none p h = elim (Bool-cases (f x.1.peer)) [
  | inl is ↦
      let ((px, _), rest) = latest-Newest f xs (some x.1.peer) p (ground (arith, h, is)) in
      (tt, (inr px, rest))
  | inr is ↦
      let (_, rest) = latest-Newest f xs none p (ground (arith, h, is)) in (tt, (inl is, rest))
]
latest-Newest f (x ∷ xs) (some b) p h = elim (Bool-cases (f x.1.peer)) [
  | inl is ↦ elim (Bool-cases (last_seen_after x.1.peer b)) [
    | inl newer ↦
        let ((px, _), rest) = latest-Newest f xs (some x.1.peer) p (ground (arith, h, is, newer)) in
        let bx = last_seen_after-NoLater x.1.peer b newer in
        ((NoLater-trans b.last_seen x.1.peer.last_seen p.last_seen bx px, tt), (inr px, rest))
    | inr older ↦
        let ((pb, _), rest) = latest-Newest f xs (some b) p (ground (arith, h, is, older)) in
        let xb = not_after-NoLater x.1.peer b older in
        ((pb, tt), (inr (NoLater-trans x.1.peer.last_seen b.last_seen p.last_seen xb pb), rest))
  ]
  | inr is ↦
      let (pb, rest) = latest-Newest f xs (some b) p (ground (arith, h, is)) in (pb, (inl is, rest))
]
