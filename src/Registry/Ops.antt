-- ===== src/Registry/Ops.antt =====
-- Histories of the peer registry: each call is one section under its lock, with its time and what its
-- seams answer.
use repowire.Prelude.{ℕ, String, Bool, Option, List, [], ◌∷◌}
use repowire.Json.{Fields}
use repowire.Proto.{PeerId, PeerRole, PeerStatus, DisplayName, Peer}
use repowire.Registry.Types.{Registry, Seams}
use repowire.Registry.Names.{AllocateParams}
use repowire.Registry.Lifecycle.{mark_offline, update_status}
use repowire.Registry.Edits.{
  update_turn_state, set_circle, update_tmux_session, update_display_name, unregister_peer,
  touch_last_seen, update_description,
}
use repowire.Registry.Access.{update_model_by_name, update_metadata_by_name}
use repowire.Registry.Role.{claim_special_role}
use repowire.Registry.Allocate.{allocate_and_register}
use repowire.Registry.Reap.{demote, reap_dangling, prune_retired, get_peer}
use repowire.Registry.Lockstep
use repowire.Registry.Lockstep.{Lockstep, Linked}
use repowire.Registry.Lockstep.Passes
use repowire.Registry.Lockstep.Allocation
use repowire.Registry.Lockstep.Roles
use repowire.Registry.Lockstep.Evictions
use repowire.Registry.Evict.{evict_stale_peers, get_peer_by_pane, mark_offline_by_name}

pub data RegistryOp : Type 0 where
  register : String → AllocateParams → RegistryOp
  go_offline : PeerId → Bool → String → Bool → RegistryOp
  report_status : PeerId → PeerStatus → RegistryOp
  report_turn : PeerId → String → RegistryOp
  move_circle : PeerId → String → RegistryOp
  move_session : PeerId → String → RegistryOp
  rename_to : PeerId → DisplayName → RegistryOp
  unregister : String → Option String → RegistryOp
  touch : String → Option String → RegistryOp
  describe_as : String → String → Option String → RegistryOp
  use_model : String → String → RegistryOp
  add_metadata : String → Fields → RegistryOp
  claim_role : String → PeerRole → Option String → Bool → RegistryOp
  demote_ghosts : List PeerId → RegistryOp
  reap_peers : (PeerId → Bool) → List Peer → RegistryOp
  prune : RegistryOp
  read_peer : PeerId → RegistryOp
  evict : ℕ → (PeerId → Bool) → List Peer → RegistryOp
  read_pane : String → RegistryOp
  offline_by_name : String → Bool → String → Registry → RegistryOp

-- A call at its time, with its seams.
pub record TimedOp : Type 0 where
  pub now : ℕ
  pub seams : Seams
  pub op : RegistryOp

module _ (decimal : ℕ → String) where
  unfoldable pub perform : Seams → ℕ → RegistryOp → Registry → Registry
  unfolding allocate_and_register mark_offline update_status update_turn_state set_circle
      update_tmux_session update_display_name unregister_peer touch_last_seen update_description
      update_model_by_name update_metadata_by_name claim_special_role demote reap_dangling
      prune_retired get_peer evict_stale_peers get_peer_by_pane mark_offline_by_name
  perform s now (register token p) r = (allocate_and_register s decimal token now p r).1
  perform s now (go_offline id terminal reason hard) r =
      mark_offline s now id terminal reason hard r
  perform s now (report_status id status) r = update_status s now id status r
  perform s now (report_turn id turn) r = update_turn_state now id turn r
  perform s now (move_circle id circle) r = set_circle now id circle r
  perform s now (move_session id session) r = update_tmux_session id session r
  perform s now (rename_to id name) r = (update_display_name now id name r).1
  perform s now (unregister name circle) r = (unregister_peer s name circle r).1
  perform s now (touch name circle) r = (touch_last_seen s now name circle r).1
  perform s now (describe_as name text circle) r = (update_description s now name text circle r).1
  perform s now (use_model name model) r = (update_model_by_name s.connected now name model r).1
  perform s now (add_metadata name metadata) r =
      (update_metadata_by_name s.connected now name metadata r).1
  perform s now (claim_role name role circle force) r =
      (claim_special_role s.connected now name role circle force r).1
  perform s now (demote_ghosts ids) r = demote now ids r
  perform s now (reap_peers evidence olds) r = reap_dangling s now evidence olds r
  perform s now prune r = prune_retired now r
  perform s now (read_peer id) r = (get_peer now id r).1
  perform s now (evict max_age evidence olds) r = evict_stale_peers s now max_age evidence olds r
  perform s now (read_pane pane) r = (get_peer_by_pane now pane r).1
  perform s now (offline_by_name name terminal reason seen) r =
      (mark_offline_by_name s now name terminal reason seen r).1

  unfoldable pub perform_all : List TimedOp → Registry → Registry
  unfolding perform
  perform_all [] r = r
  perform_all (t ∷ ts) r = perform_all ts (perform t.seams t.now t.op r)

  perform-Lockstep :
      (s : Seams) (now : ℕ) (op : RegistryOp) (r : Registry)
      → Lockstep r
      → Lockstep (perform s now op r)
  unfolding perform prune_retired
  perform-Lockstep s now (register token p) r =
      Allocation.allocate_and_register-Lockstep s decimal token now p r
  perform-Lockstep s now (go_offline id terminal reason hard) r =
      Lockstep.mark_offline-Lockstep s now id terminal reason hard r
  perform-Lockstep s now (report_status id status) r =
      Lockstep.update_status-Lockstep s now id status r
  perform-Lockstep s now (report_turn id turn) r = Lockstep.update_turn_state-Lockstep now id turn r
  perform-Lockstep s now (move_circle id circle) r = Lockstep.set_circle-Lockstep now id circle r
  perform-Lockstep s now (move_session id session) r =
      Lockstep.update_tmux_session-Lockstep id session r
  perform-Lockstep s now (rename_to id name) r = Lockstep.update_display_name-Lockstep now id name r
  perform-Lockstep s now (unregister name circle) r =
      Passes.unregister_peer-Lockstep s name circle r
  perform-Lockstep s now (touch name circle) r = Passes.touch_last_seen-Lockstep s now name circle r
  perform-Lockstep s now (describe_as name text circle) r =
      Passes.update_description-Lockstep s now name text circle r
  perform-Lockstep s now (use_model name model) r =
      Roles.update_model_by_name-Lockstep s.connected now name model r
  perform-Lockstep s now (add_metadata name metadata) r =
      Roles.update_metadata_by_name-Lockstep s.connected now name metadata r
  perform-Lockstep s now (claim_role name role circle force) r =
      Roles.claim_special_role-Lockstep s.connected now name role circle force r
  perform-Lockstep s now (demote_ghosts ids) r = Passes.demote-Lockstep now ids r
  perform-Lockstep s now (reap_peers evidence olds) r =
      Passes.reap_dangling-Lockstep s now evidence olds r
  perform-Lockstep s now prune r = λ h. h
  perform-Lockstep s now (read_peer id) r = Passes.get_peer-Lockstep now id r
  perform-Lockstep s now (evict max_age evidence olds) r =
      Evictions.evict_stale_peers-Lockstep s now max_age evidence olds r
  perform-Lockstep s now (read_pane pane) r = Evictions.get_peer_by_pane-Lockstep now pane r
  perform-Lockstep s now (offline_by_name name terminal reason seen) r =
      Evictions.mark_offline_by_name-Lockstep s now name terminal reason seen r

  -- Through every history of calls on the registry, from a registry in which it holds (the empty one
  -- among them), every entry stands under the id of its peer, and the wire status of a peer is the
  -- projection of its lifecycle state.
  pub perform_all-Lockstep :
      (ts : List TimedOp) (r : Registry) → Lockstep r → Lockstep (perform_all ts r)
  unfolding perform_all
  perform_all-Lockstep [] r h = h
  perform_all-Lockstep (t ∷ ts) r h =
      perform_all-Lockstep ts (perform t.seams t.now t.op r)
        (perform-Lockstep t.seams t.now t.op r h)
