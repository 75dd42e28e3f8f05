-- ===== src/Errors.antt =====
-- internal/errors/business-error.go: error kinds, their HTTP codes, and the failures that the
-- program reports. An error text is the constructor that stands for its format and the values put
-- into it; fallible code returns a `Result`.
use gimme.Base.{ℕ, ℤ, Bytes, ◌≡◌, refl, ◌⊎◌, inl, inr}

pub data ErrorKind : Type 0 where
  unauthorized internal_error bad_request conflict payload_too_large not_implemented : ErrorKind

pub data Failure : Type 0 where
  empty_entry_name no_files : Failure
  absolute_path escapes_namespace : Bytes → Failure
  open_failed read_failed : Bytes → Failure
  duplicate_key : Bytes → Bytes → Bytes → Failure
  too_many_entries expands_too_much upload_too_large : ℤ → Failure
  invalid_name invalid_version : Bytes → Failure
  asked_version : Failure
  unreadable_zip : Failure
  already_exists : Bytes → Failure
  size_out_of_range unexpected_size : Bytes → Failure
  put_failed get_failed : Bytes → Failure
  input_unopened : Failure
  compression_failed : Failure
  removal_failed : Failure
  upload_failed upload_stranded : Failure → Failure
  bucket_failed : Bytes → Failure
  unreachable : Failure
  missing_input invalid_input_type : Failure
  bad_date_format past_date token_generation token_saving : Failure
  invalid_url empty_package_name empty_package_version : Failure
  token_name_required token_name_too_long : Failure

pub record GimmeError : Type 0 where
  pub kind : ErrorKind
  pub err : Failure

unfoldable pub get_http_code : GimmeError → ℕ
get_http_code e = elim e.kind [
  | bad_request ↦ 400
  | conflict ↦ 409
  | payload_too_large ↦ 413
  | internal_error ↦ 500
  | unauthorized ↦ 401
  | not_implemented ↦ 501
]

pub data Result {ℓ} (A : Type ℓ) : Type ℓ where
  ok : A → Result A
  err : GimmeError → Result A

abbrev pub business_error {ℓ} : {A : Type ℓ} → ErrorKind → Failure → Result A
business_error k f = err (record { kind = k; err = f })

pub Result-cases {ℓ} :
    {A : Type ℓ} (r : Result A) → ((a : A) × (r ≡ ok a)) ⊎ ((e : GimmeError) × (r ≡ err e))
Result-cases (ok a) = inl (a, refl)
Result-cases (err e) = inr (e, refl)

abbrev pub ◌>>=◌ {ℓ μ} : {X : Type ℓ} {Y : Type μ} → Result X → (X → Result Y) → Result Y
err failure >>= next = err failure
ok value >>= next = next value

infixl 5 ◌>>=◌
-- A chain that succeeds has a first step that succeeds.
pub >>=-eq-ok {ℓ μ} :
    {X : Type ℓ} {Y : Type μ} (first : Result X) (next : X → Result Y) {y : Y}
    → (first >>= next) ≡ ok y
    → (x : X) × (first ≡ ok x) × (next x ≡ ok y)
>>=-eq-ok (err failure) next h = cc
>>=-eq-ok (ok x) next h = (x, refl, h)

pub ok_injective {ℓ} : {A : Type ℓ} {a b : A} → ok a ≡ ok b → a ≡ b
ok_injective h = cc

-- A successful result of two steps and a pure last one.
pub two_steps {ℓ} :
    {A B C : Type ℓ} (m : Result A) (n : Result B) (f : A → B → C) {c : C}
    → (m >>= λ a. n >>= λ b. ok (f a b)) ≡ ok c
    → (a : A) × (b : B) × (m ≡ ok a) × (n ≡ ok b) × (f a b ≡ c)
two_steps (ok a) (ok b) f h = (a, b, refl, refl, ok_injective h)
two_steps (ok a) (err e) f h = cc
two_steps (err e) n f h = cc
