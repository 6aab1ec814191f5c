-- ===== src/Workspace/Sources.antt =====
-- `GitSourcePolicyViolation` of PlatformCore/SourceFetch/SourceFetch.cpp: which Git sources a caller
-- may name.
use Prim.Native.Char.{code}
use styio_platform.Base.{
  String, Bool, true, false, ◌||◌, not, Option, none, some, ◌==◌, if◌then◌else◌, is_some, ltb, eqb,
}
use styio_platform.Base.Text.{strip_prefix, all_chars}

pub record GitSourcePolicy : Type 0 where
  pub allow_https : Bool
  pub allow_http : Bool
  pub allow_ssh : Bool
  pub allow_file_url : Bool
  pub allow_git_protocol : Bool
  pub allow_local_path : Bool

abbrev pub public_git_source_policy : GitSourcePolicy
public_git_source_policy = record {
  allow_https = true;
  allow_http = true;
  allow_ssh = true;
  allow_file_url = true;
  allow_git_protocol = true;
  allow_local_path = true;
}

abbrev pub starts_with : String → String → Bool
starts_with value prefix = is_some (strip_prefix prefix value)

unfoldable pub has_control_character : String → Bool
unfolding all_chars
has_control_character value =
    not (all_chars (λ c. not (ltb (code c) 0x20 || eqb (code c) 0x7f)) value)

-- `source.find(part) != std::string_view::npos`
unfoldable pub contains_text : String → String → Bool
unfolding strip_prefix
contains_text String.[] part = starts_with String.[] part
contains_text (String.◌∷◌ c s) part = starts_with (String.◌∷◌ c s) part || contains_text s part

-- `allowed ? std::nullopt : message`
abbrev pub unless : Bool → String → Option String
unless true message = none
unless false message = some message

unfoldable pub git_source_policy_violation : String → GitSourcePolicy → Option String
unfolding has_control_character contains_text strip_prefix
git_source_policy_violation source policy =
    if source == ""
    then some "git source origin is required"
    else if has_control_character source
    then some "git source origin contains control characters"
    else if starts_with source "https://"
    then unless policy.allow_https "https git sources are not allowed"
    else if starts_with source "http://"
    then unless policy.allow_http "http git sources are not allowed"
    else if starts_with source "ssh://" || starts_with source "git@"
    then unless policy.allow_ssh "ssh git sources are not allowed"
    else if starts_with source "file://"
    then unless policy.allow_file_url "file git sources are not allowed"
    else if starts_with source "git://"
    then unless policy.allow_git_protocol "git protocol sources are not allowed"
    else if contains_text source "://"
    then some "unsupported git source protocol"
    else unless policy.allow_local_path "local git source paths are not allowed"
