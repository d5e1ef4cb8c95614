-- ===== src/Exec.antt =====
-- What the services share: the result of a command (ExecResult of
-- backend/internal/executor/executor.go), the program's errors, and decoded JSON.
use auto_restic.Shared.{refl, ◌≡◌, ℕ, ℤ, Text, Option, none, Bool, List, [], pos}

-- The errors that the program makes or passes on; `external` stands for one that comes from
-- outside (the database, restic, a pipe).
pub data Error : Type 0 where
  external : Text → Error
  parse_error : (what : Text) → Error
  source_paths_required : Error
  unsupported_flag unsupported_value : Text → Error
  already_running : ℕ → Error
  hook_failed : (label : Text) → Error → Error
  hook_failed_output : (label message : Text) → Error
  hook_failed_code : (label : Text) → ℤ → Error
  joined : Error → Error → Error
  insert_log_failed : Error → Error
  pipe_read_failed : (stream : Text) → Error → Error
  bad_key bad_hex ciphertext_too_short authentication_failed : Error
  encrypt_failed decrypt_failed : (what : Text) → Error → Error
  endpoint_required unsupported_repository_type : (type : Text) → Error
  webdav_url_required repository_already_exists repository_access_invalid : Error
  -- an error with what was being done
  wrapped : (what : Text) → Error → Error
  repository_busy : (repo_id : ℕ) (kind : Text) → Error
  repository_not_found repository_locked no_rows deadline_exceeded : Error
  -- restic's own message, with an exit code other than zero
  command_failed : (message : Text) → Error

pub data Result {ℓ} (A : Type ℓ) : Type ℓ where
  ok : A → Result A
  err : Error → Result A

pub ok_inj {ℓ} : {A : Type ℓ} {a b : A} → ok a ≡ ok b → a ≡ b
ok_inj e = cc

pub err_is_not_ok {ℓ} : {A : Type ℓ} {e : Error} {a : A} → ¬ err e ≡ ok a
err_is_not_ok e = cc

infixl 5 ◌>>=◌
abbrev pub ◌>>=◌ {ℓ κ} : {A : Type ℓ} {B : Type κ} → Result A → (A → Result B) → Result B
ok a >>= f = f a
err e >>= f = err e

-- A chain that succeeds succeeds in each of its steps.
pub bind_ok {ℓ κ} :
    {A : Type ℓ} {B : Type κ} (r : Result A) (f : A → Result B) {b : B}
    → (r >>= f) ≡ ok b
    → (a : A) × ((r ≡ ok a) × (f a ≡ ok b))
bind_ok (ok a) f e = (a, (refl, e))
bind_ok (err x) f e = cc

pub record ExecResult : Type 0 where
  pub log_id : ℕ
  pub exit_code : ℤ
  pub stdout : Text
  pub stderr : Text
  pub combined_output : Text
  pub error : Option Error

-- ExecResult{}
abbrev pub empty_result : ExecResult
empty_result = record {
  log_id = 0;
  exit_code = pos 0;
  stdout = [];
  stderr = [];
  combined_output = [];
  error = none;
}

-- A JSON value as `any` holds it: `other` is null, an array or an object.
pub data Value (Number : Type 0) : Type 0 where
  bool : Bool → Value Number
  string : Text → Value Number
  number : Number → Value Number
  other : Value Number

-- encoding/json and the operations on float64 that the program calls. A decoded object is a list of
-- its entries in some order, since Go's maps have none.
pub record Json : Type 1 where
  pub Number : Type 0
  pub is_positive : Number → Bool
  pub is_two : Number → Bool
  -- strconv.FormatFloat(v, 'f', -1, 64)
  pub format : Number → Text
  pub strings : Text → Option (List Text)
  pub object : Text → Option (List (Text × Value Number))
