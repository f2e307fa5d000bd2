-- ===== src/Registry/Allocate/Identity.antt =====
-- `AllocateAndRegister` of daemon-go/peer/registry.go: its results, the claim's guard and the choice of an
-- identity.
use Prim.Native.String.{◌++◌}
use repowire.Prelude.{
  String, Bool, true, false, not, ◌&&◌, ◌||◌, ◌==◌, Option, none, some, first, lookup,
  if◌then◌else◌,
}
use repowire.Proto.{PeerId, DisplayName}
use repowire.Registry.Types.{Retirement, Registry, Seams}
use repowire.Registry.Lifecycle.{unretire}
use repowire.Registry.Pane.{runs}
use repowire.Registry.Names.{
  AllocateParams, text_of, claim_matches_identity, is_reclaimable, is_reusable,
}

-- The results of a registration. `endless` is a search for a name that runs out of fuel.
pub data Allocated : Type 0 where
  peer_retired hijack_rejected illegal_connect endless : Allocated
  allocated : PeerId → DisplayName → Allocated

abbrev pub or_opt {ℓ} : {A : Type ℓ} → Option A → Option A → Option A
or_opt none old = old
or_opt (some new) old = some new

-- (a) The retirement guard: the claim's refusal, or whether it recovers a retired identity.
unfoldable pub recover_claim :
    Seams → AllocateParams → PeerId → Registry → Option Retirement → Option (Bool × Registry)
unfolding unretire
recover_claim seams p id r none = some (false, r)
recover_claim seams p id r (some retirement) =
    if retirement.hard || not (runs seams p.agent_pid || p.runtime_identity_verified)
    then none
    else some (true, unretire id r)

unfoldable pub admit_claim :
    Seams → AllocateParams → Registry → Option PeerId → Option (Bool × Registry)
unfolding recover_claim lookup
admit_claim seams p r none = some (false, r)
admit_claim seams p r (some id) = recover_claim seams p id r (lookup id r.retired)

-- (b) A claimed id that still describes the same identity.
unfoldable pub claim_fits : AllocateParams → PeerId → Registry → Bool
unfolding lookup claim_matches_identity
claim_fits p id r = elim (lookup id r.peers) [
  | some ps ↦ claim_matches_identity ps.peer.backend ps.peer.path p.backend (text_of p.path)
  | none ↦ elim (lookup id r.mappings) [
    | some m ↦ claim_matches_identity m.backend (text_of m.path) p.backend (text_of p.path)
    | none ↦ false
  ]
]

unfoldable pub claimed_identity : AllocateParams → Registry → Option PeerId → Option PeerId
unfolding claim_fits
claimed_identity p r none = none
claimed_identity p r (some id) = if claim_fits p id r && not (id == "") then some id else none

abbrev pub key_of {ℓ} : {V : Type ℓ} → Option (PeerId × V) → Option PeerId
key_of none = none
key_of (some e) = some e.0

abbrev pub minted_id : String → AllocateParams → PeerId
minted_id token p = "repow-" ++ (p.circle ++ ("-" ++ token))

abbrev pub or_text : Option PeerId → PeerId → PeerId
or_text none id = id
or_text (some id) _ = id

-- (b), (b2), (c): the claim, an offline peer, a mapping, or a new id, in this order.
unfoldable pub choose_id : String → AllocateParams → DisplayName → Registry → PeerId
unfolding claimed_identity claim_matches_identity
choose_id token p name r =
    let offline =
      key_of (first (is_reclaimable name p.circle p.backend (text_of p.path)) r.peers) in
    let durable =
      key_of (first (is_reusable name p.circle p.backend (text_of p.path)) r.mappings) in
    or_text (or_opt (claimed_identity p r p.claimed_peer_id) (or_opt offline durable))
      (minted_id token p)
