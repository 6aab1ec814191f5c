-- ===== src/Base/Files.antt =====
-- std::filesystem, which is not part of the repository: the functions on paths and the reads of the
-- files that the sources use. A path is its text.
use Prim.Native.String.{String}
use mathlib.Core.Bool.{Bool}
use mathlib.Core.Option.{Option}

pub record Files : Type 0 where
  pub absolute : String → String
  pub lexically_normal : String → String
  -- `a / b`
  pub join : String → String → String
  pub parent_path : String → String
  pub is_absolute : String → Bool
  pub generic_string : String → String
  pub exists : String → Bool
  pub is_regular_file : String → Bool
  -- what the file holds, if it can be opened
  pub content : String → Option String

-- `CanonicalAbsolutePath` of CompilePlan.cpp and Resolver.cpp
abbrev pub canonical_absolute_path : Files → String → String
canonical_absolute_path files path = files.lexically_normal (files.absolute path)
