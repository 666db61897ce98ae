-- ===== src/Session.antt =====
-- The records of internal/session/store.go. A Go map is a `Map`; a nil map is the empty one.
-- `expires` counts nanoseconds.
pub mod Store
use labcontainers.Prelude.{ℕ, String, Bool, List, Map}

pub record Disk : Type 0 where
  pub name : String
  pub path : String
  pub size_bytes : ℕ

pub record Node : Type 0 where
  pub name : String
  pub control : String
  pub state : String
  pub disks : List Disk
  pub bootstrap_format : String
  pub bootstrap_path : String

pub record Fault : Type 0 where
  pub id : String
  pub kind : String
  pub node : String
  pub interface : String
  pub active : Bool
  pub restore_up : Bool

pub record Record : Type 0 where
  pub allow_external_access : Bool
  pub id : String
  pub name : String
  pub state : String
  pub topology_path : String
  pub artifact_directory : String
  pub expires : ℕ
  pub resume_token : String
  pub kept : Bool
  pub nodes : Map Node
  pub faults : Map Fault
  pub labels : Map String
