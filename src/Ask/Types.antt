-- ===== src/Ask/Types.antt =====
-- The records of daemon-go/service/ask_tracker.go. A time is a number of nanoseconds. `asks` is
-- ranged over, so it is an association list; the other maps are functions. An answer channel is a
-- number, and `buffer` holds what was sent to it and not yet received (its capacity is 1).
use repowire.Json.{Fields}
use repowire.Prelude.{ℕ, ◌*◌, String, Bool, Option, List}
use repowire.Proto.{PeerId, DisplayName, AgentType}

abbrev pub second : ℕ
second = 1_000_000_000

-- `evictionInterval`
abbrev pub eviction_interval : ℕ
eviction_interval = 300 * second

-- `defaultAskTTL`
abbrev pub default_ask_ttl : ℕ
default_ask_ttl = 86_400 * second

pub data Error : Type 0 where
  ask_not_found already_answered quiesced quiesce_has_open invalid_direction : Error
  invalid_answer : String → Error

pub record AskerIdentity : Type 0 where
  pub display_name : DisplayName
  pub circle : String
  pub backend : AgentType
  pub path : String
  pub machine : String

pub record Answer : Type 0 where
  pub outcome : String
  pub option_id : Option String
  pub text : Option String
  pub message : Option String

pub record Ask : Type 0 where
  pub correlation_id : String
  pub from_peer_id : PeerId
  pub from_peer_name : DisplayName
  pub to_peer_id : PeerId
  pub to_peer_name : DisplayName
  pub text : String
  pub from_repowire_session_id : Option String
  pub to_repowire_session_id : Option String
  pub reply_to : Option String
  pub parent_id : Option String
  pub created_at : ℕ
  pub closed : Bool
  pub close_reason : String
  pub pending_reply : Option String
  pub pending_reply_at : Option ℕ
  pub asker_identity : Option AskerIdentity
  pub reply_text : Option String
  pub replied_at : Option ℕ
  pub reply_delivery : String
  pub reply_attachments : List Fields
  pub question : Option Fields
  pub answer : Option Answer

pub record RegisterAskParams : Type 0 where
  pub from_peer_id : PeerId
  pub from_peer_name : DisplayName
  pub to_peer_id : PeerId
  pub to_peer_name : DisplayName
  pub text : String
  pub reply_to : Option String
  pub correlation_id : String
  pub from_repowire_session_id : Option String
  pub to_repowire_session_id : Option String
  pub parent_id : Option String
  pub question : Option Fields
  pub reply_delivery : String

pub record AskTracker : Type 0 where
  pub asks : List (String × Ask)
  pub ttl : ℕ
  pub last_eviction : Option ℕ
  pub quiescing : PeerId → Bool
  pub answer_waiters : String → Option ℕ
  pub buffer : ℕ → Option Answer
  pub next_channel : ℕ
