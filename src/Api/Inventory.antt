-- ===== src/Api/Inventory.antt =====
-- web/src/api/types.ts: users, credentials, hosts, groups, agents, files and sessions. Optional
-- fields are `Option`; `tags` may be null on the wire, which every reader of it guards by `?? []`.
use bastiondeck.Prelude.{ℕ, Bool, Option, List, Text}
use bastiondeck.Prelude.Ints.{ℤ}
use bastiondeck.Prelude.Json.{Json}

pub data Role : Type 0 where
  owner admin operator viewer : Role

pub record User : Type 0 where
  pub id : Text
  pub username : Text
  pub display_name : Text
  pub role : Role
  pub totp_enabled : Bool
  pub disabled : Bool
  pub must_change_password : Bool
  pub last_login_at : Option Text
  pub created_at : Text
  pub updated_at : Text

pub data CredentialKind : Type 0 where
  password private_key : CredentialKind

pub record Credential : Type 0 where
  pub id : Text
  pub name : Text
  pub kind : CredentialKind
  pub fingerprint : Option Text
  pub created_by : Text
  pub created_at : Text
  pub updated_at : Text

pub data AuthKind : Type 0 where
  credential agent : AuthKind

pub record Host : Type 0 where
  pub id : Text
  pub name : Text
  pub address : Text
  pub port : ℕ
  pub username : Text
  pub credential_id : Option Text
  pub auth_kind : AuthKind
  pub agent_id : Option Text
  pub jump_host_id : Option Text
  pub group_id : Option Text
  pub tags : Option (List Text)
  pub notes : Text
  pub favorite : Bool
  pub last_status : Text
  pub known_host_key : Option Text
  pub known_host_key_type : Option Text
  pub first_seen_at : Option Text
  pub last_connected_at : Option Text
  pub options : Option (List (Text × Text))
  pub created_at : Text
  pub updated_at : Text

pub record Group : Type 0 where
  pub id : Text
  pub name : Text
  pub parent_id : Option Text
  pub created_at : Text
  pub updated_at : Text

pub data AgentStatus : Type 0 where
  pending approved blocked : AgentStatus

pub record Agent : Type 0 where
  pub id : Text
  pub name : Text
  pub registered_at : Option Text
  pub last_seen_at : Option Text
  pub version : Option Text
  pub status : AgentStatus
  pub facts : Option Json
  pub online : Bool

pub record DirEntry : Type 0 where
  pub name : Text
  pub size : ℤ
  pub mode : ℕ
  pub is_dir : Bool
  pub mtime : ℤ

pub record Disk : Type 0 where
  pub filesystem : Text
  pub mount : Text
  pub total : ℤ
  pub used : ℤ
  pub available : ℤ

pub record Facts : Type 0 where
  pub hostname : Text
  pub os : Text
  pub kernel : Text
  pub arch : Text
  pub uptime_sec : ℤ
  pub cpu_model : Text
  pub cpu_cores : ℕ
  pub mem_total : ℤ
  pub disk : List Disk

pub record SessionView : Type 0 where
  pub id : Text
  pub user_id : Text
  pub created_at : Text
  pub expires_at : Text
  pub last_seen_at : Text
  pub user_agent : Text
  pub ip : Text
  pub revoked : Bool
  pub current : Option Bool
