-- ===== src/Registry/Gates.antt =====
-- What the pane gates of `AllocateAndRegister` hand on to a fresh registration.
use repowire.Prelude.{
  ◌&&◌, ℕ, String, Bool, ◌==◌, ◌≡◌, refl, Option, none, some, List, [], ◌∷◌, Bool-cases,
  Option-cases, inl, inr, first, lookup, UniqueKeys, arith, eq_iff, Option,
}
use repowire.Proto.{PeerId}
use repowire.Registry.Types.{PeerState, Entry, Registry, Seams}
use repowire.Registry.Names.{AllocateParams}
use repowire.Registry.Pane.{
  holds_pane, is_fresh_orchestrator, fresh_orchestrator_pane, live_pane_holder, pane_claim_proven,
}
use repowire.Registry.Allocate.{
  PaneGate, hijack, sticky, granted, is_hijacked, prove_claim, same_workspace, pane_gate, gate,
}

-- An entry that a search through the peers found, or a registry with the same peers.
abbrev pub GateFrom : List Entry → PaneGate → Type 0
GateFrom peers (hijack holder) = Unit
GateFrom peers (sticky key ps) = (f : Entry → Bool) × (first f peers ≡ some (key, ps))
GateFrom peers (granted pane q) = q.peers ≡ peers

prove_claim-GateFrom :
    (seams : Seams) (now : ℕ) (p : AllocateParams) (pane : String) (r : Registry)
    → GateFrom r.peers (prove_claim seams now p pane r)
unfolding prove_claim
prove_claim-GateFrom seams now p pane r = elim (Option-cases (live_pane_holder seams now pane r)) [
  | inl nobody ↦ rw (nobody, prove_claim) refl
  | inr (e, holder) ↦ elim (Bool-cases (pane_claim_proven seams pane e.1.peer p.agent_pid)) [
    | inl proven ↦ rw (holder, prove_claim, proven) refl
    | inr unproven ↦ rw (holder, prove_claim, unproven) refl
  ]
]

pane_gate-GateFrom :
    (seams : Seams) (now : ℕ) (p : AllocateParams) (pane : String) (r : Registry)
    → GateFrom r.peers (pane_gate seams now p pane r)
unfolding pane_gate fresh_orchestrator_pane
pane_gate-GateFrom seams now p pane r =
    elim (Option-cases (first (is_hijacked seams now p pane) r.peers)) [
      | inr (e, parent) ↦ rw (parent, pane_gate) tt
      | inl nobody ↦ elim (Option-cases (fresh_orchestrator_pane now pane r)) [
        | inl none_fresh ↦
            rw (nobody, pane_gate, none_fresh) (prove_claim-GateFrom seams now p pane r)
        | inr (e, fresh) ↦ elim (Bool-cases (same_workspace p e.1.peer)) [
          | inl same ↦
              rw (nobody, pane_gate, fresh, same)
                (
                  (λ (x : Entry). holds_pane pane x.1.peer && is_fresh_orchestrator now x.1.peer),
                  fresh,
                )
          | inr other ↦ rw (nobody, pane_gate, fresh, other) refl
        ]
      ]
    ]

pub gate-GateFrom :
    (seams : Seams) (now : ℕ) (p : AllocateParams) (r : Registry) (pane : Option String)
    → GateFrom r.peers (gate seams now p r pane)
unfolding gate
gate-GateFrom seams now p r none = refl
gate-GateFrom seams now p r (some pane) = elim (Bool-cases (pane == "")) [
  | inl empty ↦ rw (empty, gate) refl
  | inr named ↦ rw (named, gate) (pane_gate-GateFrom seams now p pane r)
]

-- Where no key stands twice, what a search finds is what its key leads to.
pub first-lookup :
    (f : Entry → Bool) (xs : List Entry) (key : PeerId) (ps : PeerState)
    → UniqueKeys xs
    → first f xs ≡ some (key, ps)
    → lookup key xs ≡ some ps
unfolding lookup
first-lookup f [] key ps u h = ground (arith, h)
first-lookup f (x ∷ xs) key ps u h = ground (arith, u, h, first-lookup f xs key ps, eq_iff x.0 key)
