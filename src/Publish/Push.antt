-- ===== src/Publish/Push.antt =====
-- `Push` of internal/publish/push.go: the request, and the errors by what the server answers.
use gimme.Base.{
  ℕ, ◌==◌, Bytes, codes, text_eq, if◌then◌else◌, Bool, true, false, not, ◌&&◌, List, [], ◌∷◌, ◌++◌,
  Option, none, some, length, zero, suc,
}
use gimme.Strings.{trim_right, trim_space, slash}

-- The first so many bytes.
unfoldable pub take : ℕ → Bytes → Bytes
take zero s = []
take (suc n) [] = []
take (suc n) (c ∷ s) = c ∷ take n s

pub record Options : Type 0 where
  pub url : Bytes
  pub token : Bytes
  pub name : Bytes
  pub version : Bytes

pub record PushRequest : Type 0 where
  pub endpoint : Bytes
  pub authorization : Bytes
  pub name : Bytes
  pub version : Bytes
  pub filename : Bytes
  pub content_type : Bytes
  pub archive : List (Bytes × Bytes)

-- The status, its text, and at most 513 bytes of the body; `none` is a body that cannot be read.
pub record ServerAnswer : Type 0 where
  pub status_code : ℕ
  pub status : Bytes
  pub body : Option Bytes

pub data PushError : Type 0 where
  upload_failed unread_response unauthenticated too_large : PushError
  version_exists : Bytes → PushError
  status_only : Bytes → PushError
  with_message : Bytes → Bytes → PushError

unfoldable pub push_request : Options → List (Bytes × Bytes) → PushRequest
unfolding trim_right
push_request o entries = record {
  endpoint = trim_right (λ c. c == slash) o.url ++ codes "/packages";
  authorization = codes "Bearer " ++ o.token;
  name = o.name;
  version = o.version;
  filename = codes "package.zip";
  content_type = codes "application/zip";
  archive = entries;
}

module _ (error_field : Bytes → Option Bytes) where
  -- The text of `error` in a body of JSON, if it is not empty.
  abbrev message_in : Option Bytes → Bytes × Bool
  message_in none = ([], false)
  message_in (some []) = ([], false)
  message_in (some (c ∷ m)) = (c ∷ m, true)

  unfoldable pub server_message : Bytes → Bytes × Bool
  server_message body = message_in (error_field body)

  abbrev or_body : Bytes → Bytes → Bytes
  or_body body message = if text_eq message [] then trim_space body else message

  abbrev cut_off : Bytes → Bool → Bytes → Bytes
  cut_off body json message =
      if length body == 513 && not json
      then trim_space (take 512 body) ++ (226 ∷ 128 ∷ 166 ∷ [])
      else message

  abbrev described : Bytes → Bytes → PushError
  described status message =
      if text_eq message [] then status_only status else with_message status message

  unfoldable pub push_error : ServerAnswer → Bytes → Option PushError
  unfolding server_message text_eq trim_space take
  push_error a body =
      let (message, json) = server_message body in
      if a.status_code == 201
      then none
      else if a.status_code == 401
      then some unauthenticated
      else if a.status_code == 409
      then some (version_exists message)
      else if a.status_code == 413 && not json
      then some too_large
      else some (described a.status (cut_off body json (or_body body message)))

  abbrev pub read_answer : ServerAnswer → Option Bytes → Option PushError
  read_answer a none = some unread_response
  read_answer a (some body) = push_error a body

  abbrev pub pushed : Option ServerAnswer → Option PushError
  pushed none = some upload_failed
  pushed (some a) = read_answer a a.body
