-- ===== src/Publish/Tests.antt =====
-- The command at a concrete directory and server.
use gimme.Base.{Bytes, codes, true, false, List, [], ◌∷◌, Option, none, some, ◌≡◌, refl}
use gimme.Strings.{has_prefix}
use gimme.Publish.{VersionSources}
use gimme.Publish.Archive.{
  WalkEntry, regular, directory, symlink_to_directory, failed, archived, archive,
}
use gimme.Publish.Push.{PushRequest, push_error}
use gimme.Publish.Args.{PushArgs, parse_push}
use gimme.Publish.ArgLaws.{
  Flags, none_left, with_value, then_value, with_directory, parse_push-Flags,
}
use gimme.Publish.Cli.{Machine, published, run}
use gimme.Publish.CliLaws.{Uploaded, run-Uploaded}

abbrev file : Bytes → WalkEntry
file name = record {
  name = name;
  walk_failed = false;
  is_dir = false;
  opened = some regular;
  bytes = some (codes "x");
}

abbrev link : WalkEntry
link = record {
  name = codes "l";
  walk_failed = false;
  is_dir = false;
  opened = some directory;
  bytes = none;
}

run_archive :
    archive true true (file (codes "a.js") ∷ file (codes "b.js") ∷ [])
    ≡ archived ((codes "a.js", codes "x") ∷ (codes "b.js", codes "x") ∷ [])
unfolding archive
run_archive = refl

run_link :
    archive true true (file (codes "a.js") ∷ link ∷ []) ≡ failed (symlink_to_directory (codes "l"))
unfolding archive
run_link = refl

abbrev flags : List Bytes → Option PushArgs
flags (n ∷ name ∷ rest) = some (record { name = name; package_version = []; url = []; token = [] })
flags _ = none

not_a_flag : has_prefix (codes "dist") (codes "-") ≡ false
unfolding has_prefix
not_a_flag = refl

named : Flags (codes "--name" ∷ codes "x" ∷ [])
unfolding has_prefix
named = then_value (codes "--name") (codes "x") [] refl refl refl none_left

versioned : Flags (codes "--version=1" ∷ [])
unfolding has_prefix
versioned = with_value (codes "--version=1") [] refl refl none_left

parse_push-Flags_example :
    parse_push flags (codes "--name" ∷ codes "x" ∷ codes "dist" ∷ codes "--version=1" ∷ [])
    ≡ with_directory (codes "dist") (flags (codes "--name" ∷ codes "x" ∷ codes "--version=1" ∷ []))
parse_push-Flags_example =
    parse_push-Flags flags (codes "dist") (codes "--name" ∷ codes "x" ∷ [])
      (codes "--version=1" ∷ []) not_a_flag named versioned

abbrev sources : VersionSources
sources = record { package_version = some (codes "v1.2.0"); lookup_env = none; run_git = none }

abbrev machine : Machine
machine = record {
  parse_flags = flags;
  env = λ name. codes "value";
  sources = some sources;
  archive = λ dir. archived ((codes "a.js", codes "x") ∷ []);
  send = λ r. some (record { status_code = 201; status = []; body = some [] });
  error_field = λ body. none;
}

abbrev request : PushRequest
request = record {
  endpoint = codes "value/packages";
  authorization = codes "Bearer value";
  name = codes "x";
  version = codes "1.2.0";
  filename = codes "package.zip";
  content_type = codes "application/zip";
  archive = (codes "a.js", codes "x") ∷ [];
}

abbrev arguments : List Bytes
arguments = codes "push" ∷ codes "--name" ∷ codes "x" ∷ codes "dist" ∷ []

run_push : run machine arguments ≡ (published (codes "x") (codes "1.2.0"), some request)
unfolding run push_error
run_push = refl

run-Uploaded_example : Uploaded machine (codes "x") (codes "1.2.0") (some request)
run-Uploaded_example =
    run-Uploaded machine arguments (codes "x") (codes "1.2.0") (some request) run_push
