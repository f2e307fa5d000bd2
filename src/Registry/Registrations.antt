-- ===== src/Registry/Registrations.antt =====
-- `AllocateAndRegister` as a whole: when it refuses, and whom an accepted registration leaves in the
-- table under the id and the name that it returns.
use repowire.Prelude.{
  ℕ, String, Bool, true, false, not, ◌||◌, ◌==◌, ◌≡◌, refl, Option, none, some, List, All,
  Bool-cases, Option-cases, inl, inr, lookup, UniqueKeys, is_some, lookup-insert, subst, sym, ◌∙◌,
  arith, ap, eq_refl,
}
use repowire.Proto.{PeerId, DisplayName}
use repowire.Fsm.{LifecycleState}
use repowire.Registry.Types.{
  PeerState, Entry, Registry, Retirement, Seams, set_peer, set_mapping, log_event,
}
use repowire.Registry.Names.{AllocateParams}
use repowire.Registry.Naming.{build_display_name_lem}
use repowire.Registry.Pane.{runs}
use repowire.Registry.Panes.{release_pane_lem}
use repowire.Registry.Lockstep.{Lockstep, Linked, lookup-Linked, schedule_redelivery-peers}
use repowire.Registry.Lockstep.Allocation.{refresh_mapping-peers, admit_claim-peers}
use repowire.Registry.Gates.{GateFrom, gate-GateFrom, first-lookup}
use repowire.Registry.Allocate.{
  Allocated, peer_retired, hijack_rejected, illegal_connect, endless, allocated, recover_claim,
  admit_claim, reconnected, release_claimed, refresh_mapping, reconnect_peer, PaneGate, hijack,
  sticky, granted, gate, Durable, fresh_peer, fresh_mapping, durable, store_fresh, connect_fresh,
  register_gated, register_as, choose_id, register_admitted, allocate_and_register,
}

-- A peer that was in the table keeps what a registration does not own.
abbrev pub Kept : Option PeerState → PeerState → Type 0
Kept none new = Unit
Kept (some old) new =
    (new.peer.display_name ≡ old.peer.display_name)
    × (new.peer.circle ≡ old.peer.circle)
    × (new.peer.role ≡ old.peer.role)
    × (new.peer.path ≡ old.peer.path)
    × (new.peer.description ≡ old.peer.description)

-- The id leads to a peer with the name.
abbrev pub Standing : List Entry → PeerId → DisplayName → Registry → Type 0
Standing before id name r =
    (ps : PeerState) × ((lookup id r.peers ≡ some ps)
      × ((ps.peer.display_name ≡ name) × Kept (lookup id before) ps))

-- The claim of a retired id without proof of a live agent, or of a closed one.
abbrev pub is_barred : Seams → AllocateParams → Option Retirement → Bool
is_barred seams p none = false
is_barred seams p (some retirement) =
    retirement.hard || not (runs seams p.agent_pid || p.runtime_identity_verified)

unfoldable pub is_refused : Seams → AllocateParams → Registry → Option PeerId → Bool
unfolding lookup
is_refused seams p r none = false
is_refused seams p r (some id) = is_barred seams p (lookup id r.retired)

-- What a registration that is not refused comes to.
abbrev pub Admitted : List Entry → Allocated × Registry → Type 0
Admitted before (peer_retired, r) = ⊥
Admitted before (hijack_rejected, r) = r.peers ≡ before
Admitted before (illegal_connect, r) = ⊥
Admitted before (endless, r) = ⊥
Admitted before (allocated id name, r) = Standing before id name r

release_claimed-new :
    (now : ℕ) (pane : Option String) (id : PeerId) (r : Registry)
    → lookup id (release_claimed now pane id r).peers ≡ lookup id r.peers
unfolding release_claimed
release_claimed-new now none id r = refl
release_claimed-new now (some pane) id r = elim (Bool-cases (pane == "")) [
  | inl empty ↦ rw (empty, release_claimed) refl
  | inr named ↦ rw (named, release_claimed) (release_pane_lem now pane id r).1
]

set_peer-lookup :
    (id : PeerId) (ps : PeerState) (r : Registry) → lookup id (set_peer id ps r).peers ≡ some ps
set_peer-lookup id ps r = ground (arith, lookup-insert id id ps r.peers, eq_refl id)

reconnect_peer-Standing :
    (seams : Seams) (now : ℕ) (p : AllocateParams) (recovered : Bool) (id : PeerId) (ps : PeerState)
    (r : Registry)
    → lookup id r.peers ≡ some ps
    → Admitted r.peers (reconnect_peer seams now p recovered id ps r)
unfolding reconnect_peer reconnected
reconnect_peer-Standing seams now p recovered id ps r here =
    let new = reconnected now p recovered ps in
    let updated = set_peer id new r in
    let released = release_claimed now p.pane_id id updated in
    let online = log_event "peer_online" id (refresh_mapping now p id released) in
    (
      new,
      (
        ap (lookup id)
              (schedule_redelivery-peers seams id online ∙ refresh_mapping-peers now p id released)
            ∙ release_claimed-new now p.pane_id id updated
            ∙ set_peer-lookup id new r,
        (refl, rw (here) (refl, refl, refl, refl, refl)),
      ),
    )

store_fresh-Standing :
    (seams : Seams) (now : ℕ) (p : AllocateParams) (id : PeerId) (d : Durable)
    (pane : Option String) (state : LifecycleState) (r : Registry) (before : List Entry)
    → lookup id before ≡ none
    → Admitted before (store_fresh seams now p id d pane state r)
unfolding store_fresh fresh_peer
store_fresh-Standing seams now p id d pane state r before gone =
    let new = fresh_peer now p id d pane state in
    let stored = set_peer id new r in
    let mapped = set_mapping id (fresh_mapping now p id d) (release_claimed now pane id stored) in
    (
      new,
      (
        ap (lookup id) (schedule_redelivery-peers seams id (log_event "peer_online" id mapped))
            ∙ release_claimed-new now pane id stored
            ∙ set_peer-lookup id new r,
        (refl, rw (gone) tt),
      ),
    )

register_gated-Admitted :
    (seams : Seams) (now : ℕ) (p : AllocateParams) (name : DisplayName) (id : PeerId) (r : Registry)
    (g : PaneGate)
    → lookup id r.peers ≡ none
    → Lockstep r
    → UniqueKeys r.peers
    → GateFrom r.peers g
    → Admitted r.peers (register_gated seams now p name id r g)
unfolding register_gated connect_fresh
register_gated-Admitted seams now p name id r (hijack holder) gone h u from = refl
register_gated-Admitted seams now p name id r (sticky key ps) gone h u (f, found) =
    let here = first-lookup f r.peers key ps u found in
    let key_is = (lookup-Linked key ps r.peers h here).0 in
    subst
      (λ who.
        Standing r.peers who ps.peer.display_name
          (register_gated seams now p name id r (sticky key ps)).1)
      key_is (_, (set_peer-lookup key _ r, (refl, rw (here) (refl, refl, refl, refl, refl))))
register_gated-Admitted seams now p name id r (granted pane journalled) gone h u from =
    store_fresh-Standing seams now p id (durable p name (lookup id journalled.mappings)) pane
      LifecycleState.online journalled r.peers gone

register_as-Admitted :
    (seams : Seams) (now : ℕ) (p : AllocateParams) (recovered : Bool) (name : DisplayName)
    (id : PeerId) (r : Registry)
    → Lockstep r
    → UniqueKeys r.peers
    → Admitted r.peers (register_as seams now p recovered name id r)
unfolding register_as
register_as-Admitted seams now p recovered name id r h u = elim (Option-cases (lookup id r.peers)) [
  | inl gone ↦
      rw (gone, register_as)
        (register_gated-Admitted seams now p name id r (gate seams now p r p.pane_id) gone h u
          (gate-GateFrom seams now p r p.pane_id))
  | inr (ps, here) ↦
      rw (here, register_as) (reconnect_peer-Standing seams now p recovered id ps r here)
]

admit_claim-is_refused :
    (seams : Seams) (p : AllocateParams) (r : Registry) (claim : Option PeerId)
    → is_some (admit_claim seams p r claim) ≡ not (is_refused seams p r claim)
unfolding admit_claim recover_claim is_refused
admit_claim-is_refused seams p r none = refl
admit_claim-is_refused seams p r (some id) = ground arith

-- A registration that is refused changes nothing; any other is admitted.
abbrev pub Registration : Bool → Registry → Allocated × Registry → Type 0
Registration true r result = result ≡ (peer_retired, r)
Registration false r result = Admitted r.peers result

module _ (decimal : ℕ → String) (inj : (m n : ℕ) → decimal m ≡ decimal n → m ≡ n) where
  register_admitted-Admitted :
      (seams : Seams) (token : String) (now : ℕ) (p : AllocateParams) (recovered : Bool)
      (r : Registry)
      → Lockstep r
      → UniqueKeys r.peers
      → Admitted r.peers (register_admitted seams decimal token now p recovered r)
  unfolding register_admitted
  register_admitted-Admitted seams token now p recovered r h u =
      let (name, (built, free)) = build_display_name_lem decimal inj p r in
      rw (built, register_admitted)
        (register_as-Admitted seams now p recovered name (choose_id token p name r) r h u)

  -- When two numbers never print alike and the table is keyed by the ids of its peers, each once: a
  -- registration is refused, and changes nothing, exactly when it claims an id that is retired and that
  -- is closed for good or comes without proof of a live agent. Any other registration ends; it either
  -- leaves the peers as they were, rejected as a hijack of a pane, or its id leads to a peer with its
  -- name, and a peer that had the id before keeps its name, circle, role, path and description.
  pub allocate_and_register_lem :
      (seams : Seams) (token : String) (now : ℕ) (p : AllocateParams) (r : Registry)
      → Lockstep r
      → UniqueKeys r.peers
      → Registration
          (is_refused seams p r p.claimed_peer_id)
          r
          (allocate_and_register seams decimal token now p r)
  unfolding allocate_and_register
  allocate_and_register_lem seams token now p r h u =
      elim (Option-cases (admit_claim seams p r p.claimed_peer_id)) [
        | inl barred ↦
            let refused : is_refused seams p r p.claimed_peer_id ≡ true =
              ground (arith, barred, admit_claim-is_refused seams p r p.claimed_peer_id) in
            rw (refused, barred, allocate_and_register) refl
        | inr ((recovered, q), admitted) ↦
            let cleared : is_refused seams p r p.claimed_peer_id ≡ false =
              ground (arith, admitted, admit_claim-is_refused seams p r p.claimed_peer_id) in
            let same = admit_claim-peers seams p r p.claimed_peer_id recovered q admitted in
            rw (cleared, admitted, allocate_and_register)
              (subst
                (λ peers. Admitted peers (register_admitted seams decimal token now p recovered q))
                same
                (register_admitted-Admitted seams token now p recovered q
                  (subst (All Linked) (sym same) h) (subst UniqueKeys (sym same) u)))
      ]
