-- ===== src/Port.antt =====
-- pkg/port/port.go: the port specification and status that all drivers share.
pub mod Table
pub mod Validate
pub mod Parse
pub mod Manager
pub mod Examples
use rootlesskit.Base.{ℤ}
use rootlesskit.Text.{Bytes}

-- `port.Spec`; `int` is ℤ.
pub record Spec : Type 0 where
  pub proto : Bytes
  pub parent_ip : Bytes
  pub parent_port : ℤ
  pub child_port : ℤ
  pub child_ip : Bytes

-- `port.Status`.
pub record Status : Type 0 where
  pub id : ℤ
  pub spec : Spec
