-- ===== src/Publish/CliLaws.antt =====
-- Proofs about the command as a whole.
use gimme.Base.{
  Bytes, codes, text_eq, text_eq_iff, if◌then◌else◌, Bool, true, false, not, List, [], ◌∷◌, ◌++◌,
  Option, none, some, ◌≡◌, ◌≢◌, refl, ap, subst, arith,
}
use gimme.Auth.{extract_token}
use gimme.Publish.{VersionSources, Origin, resolve_version}
use gimme.Publish.Archive.{Archived, failed, archived, ZipEntries}
use gimme.Publish.Push.{
  Options, PushRequest, ServerAnswer, PushError, push_request, push_error, read_answer, pushed,
}
use gimme.Publish.Args.{PushArgs, parse_push}
use gimme.Publish.Cli.{
  Machine, Ending, version_printed, usage, published, or_env, answered, with_archive, with_version,
  with_sources, with_args, run,
}

-- What a publication rests on: the request was sent, the server answered it with 201, the bearer token
-- that the server reads off it is the token of the options and is not empty, as the name is not, and the
-- archive is not refused.
pub record Uploaded (m : Machine) (name version : Bytes) (sent : Option PushRequest) : Type 0 where
  pub request : PushRequest
  pub sending : sent ≡ some request
  pub answer : ServerAnswer
  pub answering : m.send request ≡ some answer
  pub status : answer.status_code ≡ 201
  pub named : request.name ≡ name
  pub present : name ≢ []
  pub versioned : request.version ≡ version
  pub token : extract_token request.authorization ≢ []

extract_token-bearer : (token : Bytes) → extract_token (codes "Bearer " ++ token) ≡ token
unfolding extract_token
extract_token-bearer token = refl

push_error-none :
    (error_field : Bytes → Option Bytes) (a : ServerAnswer) (body : Bytes)
    → push_error error_field a body ≡ none
    → a.status_code ≡ 201
unfolding push_error
push_error-none error_field a body h = ground arith

read_answer-none :
    (error_field : Bytes → Option Bytes) (a : ServerAnswer) (body : Option Bytes)
    → read_answer error_field a body ≡ none
    → a.status_code ≡ 201
read_answer-none error_field a none h = cc
read_answer-none error_field a (some body) h = push_error-none error_field a body h

pushed-none :
    (error_field : Bytes → Option Bytes) (o : Option ServerAnswer)
    → pushed error_field o ≡ none
    → (a : ServerAnswer) × (o ≡ some a) × (a.status_code ≡ 201)
pushed-none error_field none h = cc
pushed-none error_field (some a) h = (a, refl, read_answer-none error_field a a.body h)

usage_apart : {name version : Bytes} → usage ≢ published name version
usage_apart e = cc

version_apart : {name version : Bytes} → version_printed ≢ published name version
version_apart e = cc

module _ (m : Machine) (name version : Bytes) (sent : Option PushRequest) where
  answered-published :
      (o : Options) (r : PushRequest) (e : Option PushError)
      → answered m o r e ≡ (published name version, sent)
      → (e ≡ none) × (o.name ≡ name) × (o.version ≡ version) × (sent ≡ some r)
  answered-published o r none h = (refl, cc, cc, cc)
  answered-published o r (some e) h = cc

  with_archive-published :
      (o : Options) (z : Archived ZipEntries)
      → o.name ≢ []
      → o.token ≢ []
      → with_archive m o z ≡ (published name version, sent)
      → Uploaded m name version sent
  unfolding push_request extract_token
  with_archive-published o (failed e) named secret h = cc
  with_archive-published o (archived entries) named secret h =
      let r = push_request o entries in
      let (good, same_name, same_version, sending) =
        answered-published o r (pushed m.error_field (m.send r)) h in
      let (a, answering, status) = pushed-none m.error_field (m.send r) good in
      record {
        request = r;
        sending = sending;
        answer = a;
        answering = answering;
        status = status;
        named = same_name;
        present = subst (λ n. n ≢ []) same_name named;
        versioned = same_version;
        token = secret;
      }

  with_version-published :
      (url token : Bytes) (a : PushArgs) (dir : Bytes) (o : Option (Bytes × Origin))
      → a.name ≢ []
      → token ≢ []
      → with_version m url token a dir o ≡ (published name version, sent)
      → Uploaded m name version sent
  with_version-published url token a dir none named secret h = cc
  with_version-published url token a dir (some (v, origin)) named secret h =
      with_archive-published _ (m.archive dir) named secret h

  with_sources-published :
      (url token : Bytes) (a : PushArgs) (dir : Bytes) (o : Option VersionSources)
      → a.name ≢ []
      → token ≢ []
      → with_sources m url token a dir o ≡ (published name version, sent)
      → Uploaded m name version sent
  with_sources-published url token a dir none named secret h = cc
  with_sources-published url token a dir (some s) named secret h =
      with_version-published url token a dir (resolve_version a.package_version s) named secret h

  abbrev Result : Type 0
  Result = Ending × Option PushRequest

  -- A published result comes from behind a guard that ends in another one.
  behind_guard :
      (b : Bool) (x y : Result)
      → (if b then x else y) ≡ (published name version, sent)
      → x.0 ≢ published name version
      → (b ≡ false) × (y ≡ (published name version, sent))
  behind_guard true x y h n = absurd (n (ap (λ (r : Result). r.0) h))
  behind_guard false x y h n = (refl, h)

  set_of : (s : Bytes) → text_eq s [] ≡ false → s ≢ []
  set_of s h e = cc (h, (text_eq_iff s []).1 e)

  with_args-published :
      (o : Option (PushArgs × Bytes))
      → with_args m o ≡ (published name version, sent)
      → Uploaded m name version sent
  with_args-published none h = cc
  with_args-published (some (a, dir)) h =
      let (n, h1) = behind_guard (text_eq a.name []) (usage, none) _ h usage_apart in
      let url = or_env m a.url (codes "GIMME_URL") in
      let token = or_env m a.token (codes "GIMME_TOKEN") in
      let (u, h2) = behind_guard (text_eq url []) (usage, none) _ h1 usage_apart in
      let (t, h3) = behind_guard (text_eq token []) (usage, none) _ h2 usage_apart in
      with_sources-published url token a dir m.sources (set_of a.name n) (set_of token t) h3

-- The command reports a publication only if it sent a request that the server answered with 201, for
-- that name, which is not empty, and that version, with a bearer token that the server reads as one that
-- is not empty.
pub run-Uploaded :
    (m : Machine) (args : List Bytes) (name version : Bytes) (sent : Option PushRequest)
    → run m args ≡ (published name version, sent)
    → Uploaded m name version sent
unfolding run
run-Uploaded m [] name version sent h = cc
run-Uploaded m (command ∷ args) name version sent h =
    let (_, h1) = behind_guard m name version sent _ (version_printed, none) _ h version_apart in
    let (_, h2) =
      behind_guard m name version sent (not (text_eq command (codes "push"))) (usage, none) _ h1
        usage_apart in
    with_args-published m name version sent (parse_push m.parse_flags args) h2
