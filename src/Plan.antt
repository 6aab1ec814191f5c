-- ===== src/Plan.antt =====
-- SpioPlatformProtocols/CompilePlan.cpp: the compile plan of a resolved package graph.
mod Examples
pub mod Order
pub mod Target
pub mod Entry
use styio_platform.Base.{String, Bool, Option}

pub record BuildPlanRequest : Type 0 where
  pub manifest_path : String
  pub intent : String
  pub package_name : Option String
  pub bin_name : Option String
  pub test_name : Option String
  pub select_lib : Bool
  pub profile : String
  pub build_mode : String
  pub compiler_version : Option String
  pub offline : Bool
  pub vendor_root : Option String
