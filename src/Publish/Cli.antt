-- ===== src/Publish/Cli.antt =====
-- `run` of cmd/gimme-cli/main.go: what the command ends with, and the request that it sent.
use gimme.Base.{
  ℕ, Bytes, codes, text_eq, if◌then◌else◌, Bool, false, not, List, [], ◌∷◌, Option, none, some,
}
use gimme.Publish.{VersionSources, Origin, resolve_version}
use gimme.Publish.Archive.{Archived, failed, archived, ArchiveError, ZipEntries}
use gimme.Publish.Push.{Options, PushRequest, ServerAnswer, PushError, push_request, pushed}
use gimme.Publish.Args.{PushArgs, parse_push}

-- What the command finds around it. `sources` is `none` if there is no working directory.
pub record Machine : Type 0 where
  pub parse_flags : List Bytes → Option PushArgs
  pub env : Bytes → Bytes
  pub sources : Option VersionSources
  pub archive : Bytes → Archived ZipEntries
  pub send : PushRequest → Option ServerAnswer
  pub error_field : Bytes → Option Bytes

pub data Ending : Type 0 where
  version_printed : Ending
  usage : Ending
  no_working_dir no_version : Ending
  archive_failed : ArchiveError → Ending
  push_failed : PushError → Ending
  published : Bytes → Bytes → Ending

unfoldable pub exit_code : Ending → ℕ
exit_code version_printed = 0
exit_code usage = 2
exit_code no_working_dir = 1
exit_code no_version = 1
exit_code (archive_failed e) = 1
exit_code (push_failed e) = 1
exit_code (published name version) = 0

module _ (m : Machine) where
  abbrev pub or_env : Bytes → Bytes → Bytes
  or_env value name = if text_eq value [] then m.env name else value

  abbrev pub answered : Options → PushRequest → Option PushError → Ending × Option PushRequest
  answered o r none = (published o.name o.version, some r)
  answered o r (some e) = (push_failed e, some r)

  abbrev pub with_archive : Options → Archived ZipEntries → Ending × Option PushRequest
  with_archive o (failed e) = (archive_failed e, none)
  with_archive o (archived entries) =
      let r = push_request o entries in answered o r (pushed m.error_field (m.send r))

  abbrev pub with_version :
      Bytes → Bytes → PushArgs → Bytes → Option (Bytes × Origin) → Ending × Option PushRequest
  with_version url token a dir none = (no_version, none)
  with_version url token a dir (some (version, origin)) =
      with_archive (record { url = url; token = token; name = a.name; version = version })
        (m.archive dir)

  abbrev pub with_sources :
      Bytes → Bytes → PushArgs → Bytes → Option VersionSources → Ending × Option PushRequest
  with_sources url token a dir none = (no_working_dir, none)
  with_sources url token a dir (some s) =
      with_version url token a dir (resolve_version a.package_version s)

  -- The name, the URL and the token are required.
  abbrev pub with_args : Option (PushArgs × Bytes) → Ending × Option PushRequest
  with_args none = (usage, none)
  with_args (some (a, dir)) =
      let url = or_env a.url (codes "GIMME_URL") in
      let token = or_env a.token (codes "GIMME_TOKEN") in
      if text_eq a.name []
      then (usage, none)
      else if text_eq url []
      then (usage, none)
      else if text_eq token []
      then (usage, none)
      else with_sources url token a dir m.sources

  abbrev is_version : List Bytes → Bool
  is_version (arg ∷ []) = text_eq arg (codes "version")
  is_version _ = false

  unfoldable pub run : List Bytes → Ending × Option PushRequest
  unfolding text_eq parse_push resolve_version push_request
  run [] = (usage, none)
  run (command ∷ args) =
      if is_version (command ∷ args)
      then (version_printed, none)
      else if not (text_eq command (codes "push"))
      then (usage, none)
      else with_args (parse_push m.parse_flags args)
