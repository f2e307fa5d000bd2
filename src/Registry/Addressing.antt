-- ===== src/Registry/Addressing.antt =====
-- Lemmas and theorems on Registry/Resolve: what an address resolves to.
use repowire.Prelude.{
  String, Bool, true, ◌||◌, ◌≡◌, ◌⊎◌, inl, inr, Option, none, some, All, List, [], ◌∷◌,
  Option-cases, Bool-cases, keep, lookup, arith, refl, eq_iff, length, ◌≤◌,
}
use repowire.Proto.{PeerId, bypasses_circles}
use repowire.Registry.Types.{PeerState, Entry, Registry}
use repowire.Registry.Resolve.{
  Resolved, missing, ambiguous, panic, hit, has_name, in_circle, fits, has_pane, is_active, greater,
  preference_key, best_of, or_all, sole_pane, break_tie, pick, across_circles, in_scope,
  resolve_name, resolve_peer,
}

-- What a result says of an address, given what a hit satisfies and what an ambiguity implies.
abbrev pub Judged : (Entry → Type 0) → Type 0 → Resolved → Type 0
Judged P A (hit k ps) = P (k, ps)
Judged P A ambiguous = A
Judged P A panic = ⊥
Judged P A missing = ⊥

abbrev pub Scopeless : Option String → Type 0
Scopeless none = Unit
Scopeless (some c) = ⊥

pub keep-All :
    (p : Entry → Bool) (P : Entry → Type 0) (xs : List Entry) → All P xs → All P (keep p xs)
keep-All p P [] h = tt
keep-All p P (x ∷ xs) (px, h) = ground (arith, keep-All p P xs h)

-- The entries of a list, and the kept ones.
abbrev pub Among : Entry → List Entry → Type 0
Among e [] = ⊥
Among e (x ∷ xs) = (x ≡ e) ⊎ Among e xs

pub weaken-All :
    (P Q : Entry → Type 0) (f : (e : Entry) → P e → Q e) (xs : List Entry) → All P xs → All Q xs
weaken-All P Q f [] h = tt
weaken-All P Q f (x ∷ xs) (px, h) = (f x px, weaken-All P Q f xs h)

pub All-Among : (xs : List Entry) → All (λ e. Among e xs) xs
All-Among [] = tt
All-Among (x ∷ xs) =
    (inl refl, weaken-All (λ e. Among e xs) (λ e. Among e (x ∷ xs)) (λ e. inr) xs (All-Among xs))

pub kept-All :
    (p : Entry → Bool) (P : Entry → Type 0) (xs : List Entry)
    → All P xs
    → All (λ e. P e × (p e ≡ true)) (keep p xs)
kept-All p P [] h = tt
kept-All p P (x ∷ xs) (px, h) = elim (Bool-cases (p x)) [
  | inl is ↦ rw is ((px, is), kept-All p P xs h)
  | inr is ↦ rw is (kept-All p P xs h)
]

module _ (connected : PeerId → Bool) (P : Entry → Type 0) where
  best_of-All :
      (A : Type 0) (e : Entry) (xs : List Entry)
      → P e
      → All P xs
      → Judged P A (best_of connected e xs)
  unfolding best_of
  best_of-All A e [] pe h = pe
  best_of-All A e (x ∷ xs) pe (px, h) =
      elim (Bool-cases (greater (preference_key connected x) (preference_key connected e))) [
        | inl is ↦ rw is (best_of-All A x xs px h)
        | inr is ↦ rw is (best_of-All A e xs pe h)
      ]

  sole_pane-All :
      (A : Type 0) (xs : List Entry) → A → All P xs → Judged P A (sole_pane connected xs)
  unfolding sole_pane
  sole_pane-All A [] a h = a
  sole_pane-All A (x ∷ []) a (px, h) = px
  sole_pane-All A (x ∷ y ∷ xs) a h = a

  break_tie-All :
      (circle : Option String) (e : Entry) (xs : List Entry)
      → P e
      → All P xs
      → Judged P (Scopeless circle) (break_tie connected circle (e ∷ xs))
  unfolding break_tie
  break_tie-All none e [] pe h = best_of-All Unit e [] pe h
  break_tie-All none e (f ∷ xs) pe h =
      sole_pane-All Unit (keep has_pane (e ∷ f ∷ xs)) tt (keep-All has_pane P (e ∷ f ∷ xs) (pe, h))
  break_tie-All (some c) e xs pe h = best_of-All ⊥ e xs pe h

  or_all-All :
      (circle : Option String) (x : Entry) (xs ys : List Entry)
      → P x
      → All P xs
      → All P ys
      → Judged P (Scopeless circle) (break_tie connected circle (or_all connected (x ∷ xs) ys))
  unfolding or_all
  or_all-All circle x xs [] px h k = break_tie-All circle x xs px h
  or_all-All circle x xs (y ∷ ys) px h (py, k) = break_tie-All circle y ys py k

  pub pick-All :
      (circle : Option String) (x : Entry) (xs : List Entry)
      → P x
      → All P xs
      → Judged P (Scopeless circle) (pick connected circle (x ∷ xs))
  unfolding pick
  pick-All circle x [] px h = px
  pick-All circle x (y ∷ xs) px h =
      or_all-All circle x (y ∷ xs) (keep is_active (x ∷ y ∷ xs)) px h
        (keep-All is_active P (x ∷ y ∷ xs) (px, h))

-- The conditions under which a name reaches a peer: in the circle, or a role that bypasses circles.
abbrev pub reachable : Option String → Entry → Bool
reachable circle e = fits circle e || bypasses_circles e.1.peer.role

-- A hit is an entry of the table, with that peer id or else with that name and within reach.
abbrev pub Addressed : String → Option String → Registry → Entry → Type 0
Addressed identifier circle r e =
    Among e r.peers
    × ((e.0 ≡ identifier)
        ⊎ ((lookup identifier r.peers ≡ none)
            × (has_name identifier e ≡ true)
            × (reachable circle e ≡ true)))

abbrev pub namesakes : String → Option String → Registry → List Entry
namesakes identifier circle r = keep (fits circle) (keep (has_name identifier) r.peers)

abbrev pub Resolution : String → Option String → Registry → Resolved → Type 0
Resolution identifier circle r (hit k ps) = Addressed identifier circle r (k, ps)
Resolution identifier circle r ambiguous =
    (circle ≡ none)
    × (lookup identifier r.peers ≡ none)
    × (2 ≤ length (keep (has_name identifier) r.peers))
Resolution identifier circle r missing =
    (lookup identifier r.peers ≡ none) × (namesakes identifier circle r ≡ [])
Resolution identifier circle r panic = ⊥

-- The same of a list of namesakes.
abbrev pub Named : (Entry → Type 0) → Option String → List Entry → Resolved → Type 0
Named P circle xs (hit k ps) = P (k, ps) × (reachable circle (k, ps) ≡ true)
Named P circle xs ambiguous = (circle ≡ none) × (2 ≤ length xs)
Named P circle xs missing = keep (fits circle) xs ≡ []
Named P circle xs panic = ⊥

module _ (connected : PeerId → Bool) (P : Entry → Type 0) where
  unscoped-Named :
      (x y : Entry) (xs : List Entry) (res : Resolved)
      → Judged P Unit res
      → Named P none (x ∷ y ∷ xs) res
  unscoped-Named x y xs missing h = absurd h
  unscoped-Named x y xs ambiguous h = (refl, omega arith)
  unscoped-Named x y xs panic h = h
  unscoped-Named x y xs (hit k ps) h = (h, refl)

  scoped-Named :
      (c : String) (xs : List Entry) (res : Resolved)
      → Judged (λ e. P e × (in_circle c e ≡ true)) ⊥ res
      → Named P (some c) xs res
  scoped-Named c xs missing h = absurd h
  scoped-Named c xs ambiguous h = absurd h
  scoped-Named c xs panic h = h
  scoped-Named c xs (hit k ps) (h, is) = (h, rw is refl)

  across_circles-Named :
      (c : String) (xs : List Entry)
      → All P xs
      → keep (in_circle c) xs ≡ []
      → Named P (some c) xs (across_circles connected xs)
  unfolding across_circles
  across_circles-Named c [] h empty = refl
  across_circles-Named c ((k, ps) ∷ []) (h, t) empty =
      elim (Bool-cases (bypasses_circles ps.peer.role)) [
        | inl is ↦ rw is (h, ground (arith, is))
        | inr is ↦ rw is empty
      ]
  across_circles-Named c (x ∷ y ∷ xs) h empty = empty

  in_scope-Named :
      (c : String) (xs ys : List Entry)
      → All P xs
      → keep (in_circle c) xs ≡ ys
      → All (λ e. P e × (in_circle c e ≡ true)) ys
      → Named P (some c) xs (in_scope connected (some c) xs ys)
  unfolding in_scope
  in_scope-Named c xs [] h eq k = across_circles-Named c xs h eq
  in_scope-Named c xs (y ∷ ys) h eq (py, k) =
      scoped-Named c xs (pick connected (some c) (y ∷ ys))
        (pick-All connected (λ e. P e × (in_circle c e ≡ true)) (some c) y ys py k)

  resolve_name-Named :
      (circle : Option String) (xs : List Entry)
      → All P xs
      → Named P circle xs (resolve_name connected circle xs)
  unfolding resolve_name pick
  resolve_name-Named none [] h = refl
  resolve_name-Named (some c) [] h = refl
  resolve_name-Named none (x ∷ []) (px, h) = (px, refl)
  resolve_name-Named none (x ∷ y ∷ xs) (px, h) =
      unscoped-Named x y xs (pick connected none (x ∷ y ∷ xs))
        (pick-All connected P none x (y ∷ xs) px h)
  resolve_name-Named (some c) (x ∷ xs) h =
      in_scope-Named c (x ∷ xs) (keep (in_circle c) (x ∷ xs)) h refl
        (kept-All (in_circle c) P (x ∷ xs) h)

lookup-Among :
    (k : PeerId) (ps : PeerState) (m : List Entry) → lookup k m ≡ some ps → Among (k, ps) m
unfolding lookup
lookup-Among k ps [] h = ground (arith, h)
lookup-Among k ps ((j, qs) ∷ m) h = ground (arith, h, eq_iff j k, lookup-Among k ps m)

module _ (connected : PeerId → Bool) where
  by_name_lem :
      (identifier : String) (circle : Option String) (r : Registry) (res : Resolved)
      → lookup identifier r.peers ≡ none
      → Named
          (λ e. Among e r.peers × (has_name identifier e ≡ true))
          circle
          (keep (has_name identifier) r.peers)
          res
      → Resolution identifier circle r res
  by_name_lem identifier circle r missing gone h = (gone, h)
  by_name_lem identifier circle r ambiguous gone (unscoped, many) = (unscoped, gone, many)
  by_name_lem identifier circle r panic gone h = h
  by_name_lem identifier circle r (hit k ps) gone ((among, named), within) =
      (among, inr (gone, named, within))

  -- Resolving an address never indexes out of range. A hit is an entry of the peer table whose id is
  -- the address, or else (no peer has that id) one of that display name that is in the circle asked
  -- for or whose role bypasses circles. An ambiguity arises only without a circle, when at least two
  -- peers have the name; and nothing is found only if no peer has that id and none in the circle has
  -- that name.
  pub resolve_peer_lem :
      (identifier : String) (circle : Option String) (r : Registry)
      → Resolution identifier circle r (resolve_peer connected identifier circle r)
  unfolding resolve_peer
  resolve_peer_lem identifier circle r = elim (Option-cases (lookup identifier r.peers)) [
    | inl gone ↦
        rw (gone, resolve_peer)
          (by_name_lem identifier circle r
            (resolve_name connected circle (keep (has_name identifier) r.peers)) gone
            (resolve_name-Named connected (λ e. Among e r.peers × (has_name identifier e ≡ true))
              circle (keep (has_name identifier) r.peers)
              (kept-All (has_name identifier) (λ e. Among e r.peers) r.peers (All-Among r.peers))))
    | inr (ps, here) ↦ rw (here, resolve_peer) (lookup-Among identifier ps r.peers here, inl refl)
  ]
