-- ===== src/Publish.antt =====
-- internal/publish and cmd/gimme-cli/main.go: the command that publishes a directory. The file system,
-- git, JSON, the package flag, the zip writer and the HTTP client are parameters.
pub mod Archive
pub mod Push
pub mod Args
pub mod Cli
pub mod ArgLaws
pub mod CliLaws
mod Tests
use gimme.Base.{
  Bytes, codes, text_eq, if◌then◌else◌, Bool, true, false, not, ◌&&◌, [], ◌∷◌, Option, none, some,
}
use gimme.Strings.{trim_prefix, trim_space}

-- `package_version` is the version that a package.json in the working directory gives, empty when it
-- gives none; `none` is a file that cannot be read. `run_git` is the output of git, if it succeeds.
pub record VersionSources : Type 0 where
  pub package_version : Option Bytes
  pub lookup_env : Option (Bytes → Bytes)
  pub run_git : Option (Option Bytes)

pub data Origin : Type 0 where
  from_flag from_package_json from_github_tag from_git_tag : Origin

unfoldable pub strip_v : Bytes → Bytes
unfolding trim_prefix
strip_v value = trim_prefix value (codes "v")

abbrev found : Origin → Bytes → Option (Bytes × Origin)
found origin version = some (strip_v version, origin)

abbrev from_git : Option (Option Bytes) → Option (Bytes × Origin)
from_git none = none
from_git (some none) = none
from_git (some (some output)) =
    if text_eq (trim_space output) [] then none else found from_git_tag (trim_space output)

abbrev from_env : Option (Bytes → Bytes) → Option (Option Bytes) → Option (Bytes × Origin)
from_env none git = from_git git
from_env (some env) git =
    if text_eq (env (codes "GITHUB_REF_TYPE")) (codes "tag")
      && not (text_eq (env (codes "GITHUB_REF_NAME")) [])
    then found from_github_tag (env (codes "GITHUB_REF_NAME"))
    else from_git git

abbrev from_file :
    Option Bytes → Option (Bytes → Bytes) → Option (Option Bytes) → Option (Bytes × Origin)
from_file none env git = from_env env git
from_file (some []) env git = from_env env git
from_file (some (c ∷ version)) env git = found from_package_json (c ∷ version)

unfoldable pub resolve_version : Bytes → VersionSources → Option (Bytes × Origin)
unfolding strip_v trim_space text_eq
resolve_version [] s = from_file s.package_version s.lookup_env s.run_git
resolve_version (c ∷ explicit) s = found from_flag (c ∷ explicit)
