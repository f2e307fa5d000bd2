-- ===== src/Registry/Tests.antt =====
-- Example data and the theorems of this component at concrete inputs.
use repowire.Prelude.{
  List, All, UniqueKeys, lookup, true, String, Bool, false, ◌≡◌, refl, none, some, [], ◌∷◌,
}
use repowire.Json.{end}
use repowire.Fsm.{LifecycleState, to_status}
use repowire.Proto.{PeerId, PeerStatus, PeerRole, DisplayName, agent, orchestrator, codex, Peer}
use repowire.Samples.{tally, tally-inj}
use repowire.Registry.Types.{Entry, Registry, Seams, heartbeat_tolerance}
use repowire.Registry.Folder.{base_folder}
use repowire.Registry.Names.{AllocateParams, build_display_name}
use repowire.Registry.Naming.{is_free, build_display_name_lem}
use repowire.Registry.Pane.{release_pane}
use repowire.Registry.Panes.{is_settled, release_pane_lem}
use repowire.Registry.Allocate.{allocate_and_register}
use repowire.Registry.Registrations.{Registration, is_refused, allocate_and_register_lem}
use repowire.Registry.Lockstep.{Lockstep}
use repowire.Registry.Ops.{
  TimedOp, register, report_status, go_offline, claim_role, perform_all, perform_all-Lockstep,
}
use repowire.Registry.Resolve.{resolve_peer, get_orchestrator}
use repowire.Registry.Addressing.{Resolution, resolve_peer_lem}
use repowire.Registry.Access.{check_access}
use repowire.Registry.Circles.{Verdict, check_access_lem}
use repowire.Registry.Role
use repowire.Registry.Claims.{Outcome, claim_special_role_lem}
use repowire.Registry.Orchestrators.{AnswerFor, get_orchestrator_lem, claim-get_orchestrator}

abbrev nobody_connected : PeerId → Bool
nobody_connected id = false

abbrev peer_in : PeerId → String → PeerRole → Peer
peer_in id circle role = record {
  peer_id = id;
  display_name = "api";
  path = "/srv/api";
  machine = "m1";
  tmux_session = none;
  pane_id = some "%1";
  backend = codex;
  model = none;
  circle = circle;
  role = role;
  status = PeerStatus.online;
  turn_state = "";
  last_seen = some 100;
  metadata = some end;
  description = "";
  agent_pid = none;
}

abbrev entry_in : PeerId → String → PeerRole → Entry
entry_in id circle role =
    (id, record { peer = peer_in id circle role; state = LifecycleState.online })

-- An agent and a stale orchestrator of one circle, and an agent of another.
abbrev two_circles : Registry
two_circles = record {
  peers =
      entry_in "p1" "red" agent
      ∷ entry_in "p2" "red" orchestrator
      ∷ entry_in "p3" "blue" agent
      ∷ [];
  mappings = [];
  mappings_dirty = false;
  mappings_version = 0;
  retired = [];
  heartbeat_interval = 15;
  events = [];
  retired_ttl = 72;
  reap_ttl = 30;
  description_ttl = 15;
  description_set_at = [];
  calls = [];
}

abbrev claim_p1 : Role.Claim × Registry
claim_p1 = Role.claim_special_role nobody_connected 1000 "p1" orchestrator none false two_circles

abbrev crowned_peer : Peer
crowned_peer = record (peer_in "p1" "red" orchestrator) { last_seen = some 1000 }

abbrev p1_result : Role.ClaimResult
p1_result = record { peer = crowned_peer; already_held = false; previous_holders = "p2" ∷ [] }

abbrev after_claim : Registry
after_claim = record two_circles {
  peers =
      ("p1", record { peer = crowned_peer; state = LifecycleState.online })
      ∷ entry_in "p2" "red" agent
      ∷ entry_in "p3" "blue" agent
      ∷ [];
  events = record { kind = "role_claimed"; peer_id = "p1" } ∷ [];
}

p1_claims : claim_p1 ≡ (Role.claimed p1_result, after_claim)
unfolding Role.claim_special_role heartbeat_tolerance
p1_claims = refl

p1_serves : get_orchestrator nobody_connected 1010 "red" after_claim ≡ some crowned_peer
unfolding get_orchestrator heartbeat_tolerance
p1_serves = refl

resolve_peer_lem_example :
    Resolution "api"
      (some "blue")
      two_circles
      (resolve_peer nobody_connected "api" (some "blue") two_circles)
resolve_peer_lem_example = resolve_peer_lem nobody_connected "api" (some "blue") two_circles

check_access_lem_example :
    Verdict "p1" "p3" false none two_circles
      (check_access nobody_connected "p1" "p3" false none two_circles)
check_access_lem_example = check_access_lem nobody_connected "p1" "p3" false none two_circles

claim_special_role_lem_example : Outcome nobody_connected 1000 "p1" none two_circles claim_p1
claim_special_role_lem_example =
    claim_special_role_lem nobody_connected 1000 "p1" orchestrator none false two_circles

get_orchestrator_lem_example :
    AnswerFor nobody_connected 1010 "red" after_claim
      (get_orchestrator nobody_connected 1010 "red" after_claim)
get_orchestrator_lem_example = get_orchestrator_lem nobody_connected 1010 "red" after_claim

claim-get_orchestrator_example : crowned_peer.peer_id ≡ p1_result.peer.peer_id
claim-get_orchestrator_example =
    claim-get_orchestrator nobody_connected 1000 1010 "p1" orchestrator none false two_circles
      after_claim p1_result crowned_peer p1_claims p1_serves

abbrev no_seams : Seams
no_seams = record {
  has_transport = true;
  has_asks = true;
  connected = nobody_connected;
  pid_alive = λ pid. false;
  ancestors = λ pid. none;
  pane_root_pid = λ pane. none;
}

-- A session in the pane of the peers of `two_circles`, that claims an id.
abbrev a_session : PeerId → AllocateParams
a_session id = record {
  circle = "red";
  backend = codex;
  preferred_display_name = some "api";
  model = none;
  path = some "/srv/api";
  pane_id = some "%1";
  tmux_session = none;
  machine = "m1";
  role = agent;
  claimed_peer_id = some id;
  metadata = none;
  agent_pid = none;
  turn_state = none;
  parent_pid = none;
  runtime_identity_verified = false;
}

two_circles-Lockstep : Lockstep two_circles
two_circles-Lockstep = unfold to_status in ((refl, refl), ((refl, refl), ((refl, refl), tt)))

two_circles-UniqueKeys : UniqueKeys two_circles.peers
unfolding lookup
two_circles-UniqueKeys = (refl, (refl, (refl, tt)))

build_display_name_lem_example :
    (name : DisplayName) × (build_display_name tally (a_session "p1") two_circles ≡ some name
      × is_free (a_session "p1") two_circles.peers name ≡ true)
build_display_name_lem_example = build_display_name_lem tally tally-inj (a_session "p1") two_circles

release_pane_lem_example :
    All (λ e. is_settled 1000 "%1" "p1" e ≡ true) (release_pane 1000 "%1" "p1" two_circles).peers
    × (lookup "p1" (release_pane 1000 "%1" "p1" two_circles).peers ≡ lookup "p1" two_circles.peers)
release_pane_lem_example = release_pane_lem 1000 "%1" "p1" two_circles

allocate_and_register_lem_example :
    Registration
      (is_refused no_seams (a_session "p1") two_circles (some "p1"))
      two_circles
      (allocate_and_register no_seams tally "x" 1000 (a_session "p1") two_circles)
allocate_and_register_lem_example =
    allocate_and_register_lem tally tally-inj no_seams "x" 1000 (a_session "p1") two_circles
      two_circles-Lockstep two_circles-UniqueKeys

-- A registration, a role claim, a status frame and a close.
abbrev a_day : List TimedOp
a_day =
    record { now = 1000; seams = no_seams; op = register "x" (a_session "p9") }
    ∷ record { now = 1001; seams = no_seams; op = claim_role "p1" orchestrator none false }
    ∷ record { now = 1002; seams = no_seams; op = report_status "p1" PeerStatus.busy }
    ∷ record { now = 1003; seams = no_seams; op = go_offline "p3" true "closed" true }
    ∷ []

perform_all-Lockstep_example : Lockstep (perform_all tally a_day two_circles)
perform_all-Lockstep_example = perform_all-Lockstep tally a_day two_circles two_circles-Lockstep

a_folder : base_folder "/srv/my  repo!/" ≡ "my-repo"
unfolding base_folder
a_folder = refl

the_root : base_folder "//" ≡ "peer"
unfolding base_folder
the_root = refl
