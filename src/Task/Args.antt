-- ===== src/Task/Args.antt =====
-- The command lines of a task: buildBackupArgs, buildExtraFlagArgs and runForgetPolicy of
-- backend/internal/service/task_service.go.
pub mod Flags
pub mod Backup
use auto_restic.Shared.{
  ℕ, Bool, true, false, ◌||◌, ◌&&◌, not, List, [], ◌∷◌, ◌++◌, Option, none, some, Text, codes,
  Eq-Text, ◌==◌, lookup, if◌then◌else◌, is_empty, trim_space, map,
}
use auto_restic.Exec.{
  Error, parse_error, source_paths_required, unsupported_flag, unsupported_value, Result, ok, err,
  ◌>>=◌, Value, bool, string, number, other, Json,
}
use auto_restic.Task.Sort.{sort_texts}

-- model.BackupTask, but for the times of its creation, its last change and its last run
pub record BackupTask : Type 0 where
  pub id : ℕ
  pub repo_id : ℕ
  pub name : Text
  pub source_paths : Text
  pub excludes : Text
  pub tags : Text
  pub cron_expr : Text
  pub cron_enabled : Bool
  pub forget_policy : Text
  pub pre_hooks : Text
  pub post_hooks : Text
  pub extra_flags : Text
  -- in seconds
  pub next_run_at : Option ℕ

abbrev pub allowed_extra_flags : List Text
allowed_extra_flags = map codes (
    "--host" ∷ "--compression" ∷ "--pack-size" ∷ "--parent" ∷ "--force" ∷ "--limit-upload"
    ∷ "--limit-download" ∷ "--read-concurrency" ∷ "--ignore-ctime" ∷ "--ignore-inode"
    ∷ "--one-file-system" ∷ "--no-scan" ∷ "--with-atime" ∷ "--exclude-caches" ∷ "--exclude-file"
    ∷ "--files-from" ∷ "--exclude-larger-than" ∷ "--exclude-if-present" ∷ "--iexclude"
    ∷ "--iexclude-file" ∷ "--verbose" ∷ "--quiet" ∷ "--json" ∷ "--no-lock" ∷ "--retry-lock"
    ∷ "--dry-run" ∷ "--group-by" ∷ "--skip-if-unchanged" ∷ "--no-cache" ∷ "--option" ∷ [])

unfoldable pub contains_arg : List Text → Text → Bool
contains_arg [] want = false
contains_arg (arg ∷ args) want = arg == want || contains_arg args want

-- allowedExtraFlags[key]
unfoldable pub is_allowed : Text → Bool
unfolding contains_arg
is_allowed key = contains_arg allowed_extra_flags key

unfoldable pub keys_of {ℓ} : {V : Type ℓ} → List (Text × V) → List Text
keys_of [] = []
keys_of ((k, v) ∷ m) = k ∷ keys_of m

abbrev require_some : List Text → Result (List Text)
require_some [] = err source_paths_required
require_some (p ∷ ps) = ok (p ∷ ps)

abbrev pub json_flag : Text
json_flag = codes "--json"

-- `--json` unless the flags have it
pub json_args : List Text → List Text
unfolding contains_arg
json_args args = if contains_arg args json_flag then args else args ++ json_flag ∷ []

pub repeated : Text → List Text → List Text
repeated flag [] = []
repeated flag (x ∷ xs) = flag ∷ x ∷ repeated flag xs

module _ (j : Json) where
  open j use {Number, is_positive, is_two, format, strings, object}

  -- The arguments that one flag adds. A key that ranges over the map is in it.
  flag_args : Text → Option (Value Number) → Result (List Text)
  flag_args key (some (bool v)) = ok (if v then key ∷ [] else [])
  flag_args key (some (string v)) = ok (if is_empty v then [] else key ∷ v ∷ [])
  flag_args key (some (number v)) =
      ok (if key == codes "--verbose" && is_two v then codes "-vv" ∷ [] else key ∷ format v ∷ [])
  flag_args key (some other) = err (unsupported_value key)
  flag_args key none = err (unsupported_value key)

  -- the loop over the sorted keys
  flags_loop : List (Text × Value Number) → List Text → Result (List Text)
  flags_loop flags [] = ok []
  flags_loop flags (key ∷ keys) =
      let rest = flags_loop flags keys in
      if not (is_allowed key)
      then err (unsupported_flag key)
      else do args ← flag_args key (lookup key flags); more ← rest; ok (args ++ more)

  unfoldable pub build_flags : List (Text × Value Number) → Result (List Text)
  unfolding flags_loop flag_args is_allowed keys_of
  build_flags flags = flags_loop flags (sort_texts (keys_of flags))

  unfoldable pub build_extra_flag_args : Text → Result (List Text)
  unfolding build_flags
  build_extra_flag_args raw =
      if is_empty raw || raw == codes "{}" then ok [] else elim (object raw) [
        | none ↦ err (parse_error (codes "extra flags"))
        | some flags ↦ build_flags flags
      ]

  unmarshal_strings : Text → Text → Result (List Text)
  unmarshal_strings what raw = elim (strings raw) [
    | none ↦ err (parse_error what)
    | some items ↦ ok items
  ]

  unfoldable pub build_backup_args : BackupTask → Result (List Text)
  unfolding unmarshal_strings repeated json_args
  build_backup_args task = do
    source_paths ← unmarshal_strings (codes "source paths") task.source_paths
    checked ← require_some source_paths
    excludes ← unmarshal_strings (codes "excludes") task.excludes
    tags ← unmarshal_strings (codes "tags") task.tags
    extra_args ← build_extra_flag_args task.extra_flags
    ok (
        json_args (codes "backup" ∷ extra_args)
        ++ (repeated (codes "--exclude") excludes ++ (repeated (codes "--tag") tags ++ checked)))

  -- policyValue of one key
  policy_text : Option (Value Number) → Option Text
  policy_text (some (string v)) = if is_empty (trim_space v) then none else some v
  policy_text (some (number v)) = if is_positive v then some (format v) else none
  policy_text _ = none

  unfoldable pub policy_value : List (Text × Value Number) → List Text → Option Text
  unfolding policy_text
  policy_value policy [] = none
  policy_value policy (key ∷ keys) = elim (policy_text (lookup key policy)) [
    | some v ↦ some v
    | none ↦ policy_value policy keys
  ]

  keep : List (Text × Value Number) → Text → Text → Text → List Text
  keep policy key dashed flag = elim (policy_value policy (key ∷ dashed ∷ [])) [
    | none ↦ []
    | some v ↦ flag ∷ v ∷ []
  ]

  -- the arguments behind "forget"
  unfoldable pub forget_args : List (Text × Value Number) → List Text
  unfolding keep policy_value
  forget_args policy =
      keep policy (codes "keep_last") (codes "keep-last") (codes "--keep-last")
      ++ (keep policy (codes "keep_daily") (codes "keep-daily") (codes "--keep-daily")
          ++ (keep policy (codes "keep_weekly") (codes "keep-weekly") (codes "--keep-weekly")
              ++ (keep policy (codes "keep_monthly") (codes "keep-monthly") (codes "--keep-monthly")
                  ++ keep policy (codes "keep_yearly") (codes "keep-yearly")
                      (codes "--keep-yearly"))))
