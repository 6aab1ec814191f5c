-- ===== src/Resolve.antt =====
-- PlatformCore/Resolve (Resolver.hpp, Resolver.cpp): the resolved package graph. A file path
-- (std::filesystem::path) is its text.
use styio_platform.Base.{String, Option, List}
use styio_platform.Manifest.{PackageConfig}

pub record ResolvedDependencyAlias : Type 0 where
  pub alias : String
  pub package_id : String

pub record ResolvedPackage : Type 0 where
  pub manifest_path : String
  pub root_dir : String
  pub pkg : PackageConfig
  pub id : String
  pub source_kind : String
  pub git : Option String
  pub rev : Option String
  pub registry : Option String
  pub sha256 : Option String
  pub repo_hash : Option String
  pub snapshot_root : Option String
  pub dependencies : List String
  pub dependency_aliases : List ResolvedDependencyAlias

-- `lockfile` is left out: the compile plan does not read it.
pub record ResolvedGraphResult : Type 0 where
  pub manifest_path : String
  pub root_ids : List String
  pub packages : List ResolvedPackage
