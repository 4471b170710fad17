-- ===== src/Api.antt =====
-- pkg/api: the REST API over a port manager, its server (router) and its client. JSON is a
-- parameter; so are gorilla's mux and the HTTP transport.
pub mod Http
pub mod Router
pub mod Server
pub mod Client
pub mod Effects
pub mod Transparent
pub mod Examples
use rootlesskit.Base.{ℤ, ◌≡◌, Bool, Option, some, List}
use rootlesskit.Text.{Bytes}
use rootlesskit.Port.{Spec, Status}

-- `api.NetworkDriverInfo`.
pub record NetworkDriverInfo : Type 0 where
  pub driver : Bytes
  pub dns : List Bytes
  -- `nil` is `none`.
  pub child_ip : Option Bytes
  pub dynamic_child_ip : Bool

-- `api.PortDriverInfo`.
pub record PortDriverInfo : Type 0 where
  pub driver : Bytes
  pub protos : List Bytes
  pub disallow_loopback_child_ip : Bool

-- `api.Info`.
pub record Info : Type 0 where
  pub api_version : Bytes
  pub version : Bytes
  pub state_dir : Bytes
  pub child_pid : ℤ
  pub network_driver : Option NetworkDriverInfo
  pub port_driver : Option PortDriverInfo

-- `encoding/json` at a type: `none` is an error.
pub record Codec (A : Type 0) : Type 0 where
  pub marshal : A → Option Bytes
  pub unmarshal : Bytes → Option A

-- The codec carries a value: its text is read back.
abbrev pub Carries : {A : Type 0} → Codec A → A → Type 0
Carries c a = (b : Bytes) × (c.marshal a ≡ some b) × (c.unmarshal b ≡ some a)

pub record Json : Type 0 where
  pub spec : Codec Spec
  pub status : Codec Status
  pub statuses : Codec (List Status)
  pub info : Codec Info
  -- `httputil.ErrorJSON`, by its message.
  pub error : Codec Bytes
  -- The texts of the errors of `Marshal`, and of `Decode` at a body.
  pub marshal_text : Bytes
  pub decode_text : Bytes → Bytes
