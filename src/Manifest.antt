-- ===== src/Manifest.antt =====
-- PlatformCore/Manifest (Manifest.hpp, Manifest.cpp): the project manifest spio.toml. The fields that
-- the source calls `package` are `pkg`, since the word is reserved.
mod Examples
pub mod Toml
pub mod Parse
pub mod Load
pub mod Print
pub mod Valid
mod Declared
mod Sources
mod Targets
pub mod Loaded
use styio_platform.Base.{String, Bool, Option, List}

pub data DependencySourceKind : Type 0 where
  path git registry : DependencySourceKind

pub record Dependency : Type 0 where
  pub alias : String
  pub package_name : Option String
  pub source_kind : DependencySourceKind
  pub source : String
  pub rev : Option String
  pub version : Option String

pub record Toolchain : Type 0 where
  pub channel : String
  pub implicit_std : Bool

pub record LibTarget : Type 0 where
  pub path : String

pub record BinTarget : Type 0 where
  pub name : String
  pub path : String

pub record TestTarget : Type 0 where
  pub name : String
  pub path : String

pub record WorkspaceConfig : Type 0 where
  pub members : List String
  pub exclude : List String
  pub resolver : String

pub record PackageConfig : Type 0 where
  pub name : String
  pub version : String
  pub edition : String
  pub publish : Bool
  pub toolchain : Toolchain
  pub lib : Option LibTarget
  pub bins : List BinTarget
  pub tests : List TestTarget
  pub dependencies : List Dependency
  pub dev_dependencies : List Dependency

pub record ManifestDocument : Type 0 where
  pub pkg : Option PackageConfig
  pub workspace : Option WorkspaceConfig
