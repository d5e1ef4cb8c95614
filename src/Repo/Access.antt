-- ===== src/Repo/Access.antt =====
-- Whether a repository is there and may be used: ProbeRepositoryAccess, detectRepositoryLocks,
-- UnlockRepositoryAccess, ValidateRepoAccess, buildAccessProbeEnv and the tests of what restic says
-- of backend/internal/service/repo_service.go.
pub mod Said
use auto_restic.Shared.{
  is_some, ◌&&◌, ◌||◌, not, ℕ, ℤ, pos, nat_eq, leb, ltb, Bool, true, false, List, [], ◌∷◌, ◌++◌,
  Option, none, some, Text, codes, is_empty, is_zero, trim_space, to_lower, contains_text, split_at,
  length, if◌then◌else◌,
}
use auto_restic.Exec.{
  Error, command_failed, repository_access_invalid, repository_not_found,
  unsupported_repository_type, Result, ok, err, ExecResult,
}
use auto_restic.Repo.{
  RepositoryAccessRequest, normalize_probe_endpoint, is_local, is_rclone, is_webdav,
}
unfoldable pub use auto_restic.Repo.Access.Said.{
  is_credential_or_access_error, is_lock_error, is_repo_missing_error, has_restic_lock_ids,
}

-- a command of restic that the executor runs
pub record Command : Type 0 where
  pub trigger : Text
  pub args : List Text
  pub env : List Text

-- What comes from outside: the result of the command that stands at the front of a trace, the file
-- that is written for an rclone config, and whether a file of a directory is there and is a directory.
pub record Outside : Type 0 where
  pub run : List Command → ExecResult
  pub temp_config : Text → Result Text
  pub stat : (dir rel : Text) → Option Bool

pub record RepositoryProbe : Type 0 where
  pub exists : Bool
  pub accessible : Bool
  pub locked : Bool

abbrev pub no_probe : RepositoryProbe
no_probe = record { exists = false; accessible = false; locked = false }

abbrev pub is_there : Option Bool → Bool → Bool
is_there none is_dir = false
is_there (some found) is_dir = if found then is_dir else not is_dir

-- stdout, stderr and combined output, with a line feed between them
abbrev pub all_output : ExecResult → Text
all_output r = r.stdout ++ 10 ∷ r.stderr ++ 10 ∷ r.combined_output

abbrev pub is_exit_11 : ℤ → Bool
is_exit_11 (pos n) = nat_eq n 11
is_exit_11 _ = false

-- What detectRepositoryLocks finds. Its caller passes over its error.
unfoldable pub locked_by : ExecResult → Bool
unfolding has_restic_lock_ids is_lock_error trim_space
locked_by r =
    if is_zero r.exit_code
    then not (is_empty (trim_space r.stdout)) || has_restic_lock_ids r.combined_output
    else is_lock_error (all_output r) || is_exit_11 r.exit_code

module _ (outside : Outside) where
  unfoldable pub local_path_looks_like_restic_repository : Text → Bool
  local_path_looks_like_restic_repository endpoint =
      let dir = trim_space endpoint in
      not (is_empty dir)
      && is_there (outside.stat dir (codes "config")) false
      && is_there (outside.stat dir (codes "data")) true
      && is_there (outside.stat dir (codes "index")) true
      && is_there (outside.stat dir (codes "keys")) true

  unfoldable pub with_rclone_config : List Text → Result Text → Result (List Text)
  with_rclone_config env (err e) = err e
  with_rclone_config env (ok path) = ok (env ++ (codes "RCLONE_CONFIG=" ++ path) ∷ [])

  unfoldable pub build_access_probe_env : RepositoryAccessRequest → Text → Result (List Text)
  unfolding with_rclone_config
  build_access_probe_env r endpoint =
      let password = codes "RESTIC_PASSWORD=" ++ r.password in
      if is_local r.type
      then ok (password ∷ (codes "RESTIC_REPOSITORY=" ++ endpoint) ∷ [])
      else if is_rclone r.type
      then (let env = password ∷ (codes "RESTIC_REPOSITORY=rclone:" ++ endpoint) ∷ [] in
          if is_empty (trim_space r.rclone_config)
          then ok env
          else with_rclone_config env (outside.temp_config r.rclone_config))
      else if is_webdav r.type
      then ok (
          password
          ∷ (codes "RESTIC_REPOSITORY=webdav:" ++ r.webdav_url)
          ∷ ((if is_empty r.webdav_user then [] else (codes "WEBDAV_USER=" ++ r.webdav_user) ∷ [])
              ++ (if is_empty r.webdav_password
                  then []
                  else (codes "WEBDAV_PASSWORD=" ++ r.webdav_password) ∷ [])))
      else err (unsupported_repository_type r.type)

  -- What restic says of a repository whose config it cannot read. The first is the outcome for a
  -- directory that looks like a repository.
  refused : Bool → Text → RepositoryProbe × Option Error
  unfolding is_credential_or_access_error is_repo_missing_error
  refused looks_like output =
      let invalid : RepositoryProbe × Option Error =
        (record no_probe { exists = true }, some repository_access_invalid) in
      if is_credential_or_access_error output
      then invalid
      else if is_repo_missing_error output
      then (if looks_like then invalid else (no_probe, none))
      else if looks_like
      then invalid
      else (no_probe, none)

  -- behind `cat config`
  probed :
      RepositoryAccessRequest
      → Text
      → List Text
      → ExecResult
      → List Command
      → List Command × (RepositoryProbe × Option Error)
  unfolding refused local_path_looks_like_restic_repository locked_by
  probed r endpoint env result trace =
      let listing : Command = record {
        trigger = codes "system_query";
        args = codes "list" ∷ codes "locks" ∷ codes "--no-lock" ∷ [];
        env = env;
      } in
      if is_zero result.exit_code
      then (
        listing ∷ trace,
        (
          record {
            exists = true;
            accessible = true;
            locked = locked_by (outside.run (listing ∷ trace));
          },
          none,
        ),
      )
      else (
        trace,
        refused (is_local r.type && local_path_looks_like_restic_repository endpoint)
            (all_output result),
      )

  probe_with :
      RepositoryAccessRequest
      → Text
      → Result (List Text)
      → List Command
      → List Command × (RepositoryProbe × Option Error)
  unfolding probed
  probe_with r endpoint (err e) trace = (trace, (no_probe, some e))
  probe_with r endpoint (ok env) trace =
      let reading : Command = record {
        trigger = codes "system_query";
        args = codes "cat" ∷ codes "config" ∷ [];
        env = env;
      } in
      probed r endpoint env (outside.run (reading ∷ trace)) (reading ∷ trace)

  probe_at :
      RepositoryAccessRequest
      → Result Text
      → List Command
      → List Command × (RepositoryProbe × Option Error)
  unfolding probe_with build_access_probe_env
  probe_at r (err e) trace = (trace, (no_probe, some e))
  probe_at r (ok endpoint) trace = probe_with r endpoint (build_access_probe_env r endpoint) trace

  unfoldable pub probe_repository_access :
      RepositoryAccessRequest → List Command → List Command × (RepositoryProbe × Option Error)
  unfolding probe_at normalize_probe_endpoint
  probe_repository_access r trace = probe_at r (normalize_probe_endpoint r) trace

  validated : List Command × (RepositoryProbe × Option Error) → List Command × Option Error
  validated (trace, (probe, some e)) = (trace, some e)
  validated (trace, (probe, none)) =
      (trace, (if probe.exists && probe.accessible then none else some repository_not_found))

  unfoldable pub validate_repo_access :
      RepositoryAccessRequest → List Command → List Command × Option Error
  unfolding probe_repository_access validated
  validate_repo_access r trace = validated (probe_repository_access r trace)

  -- what `restic unlock` reports, with the number of its log
  unlock_outcome : ExecResult → ℕ × Option Error
  unlock_outcome result = (
    result.log_id,
    (if is_some result.error
        then result.error
        else if is_zero result.exit_code
        then none
        else some (command_failed (trim_space (result.stderr ++ 10 ∷ result.stdout)))),
  )

  unlock_with : Result (List Text) → List Command → List Command × (ℕ × Option Error)
  unfolding unlock_outcome
  unlock_with (err e) trace = (trace, (0, some e))
  unlock_with (ok env) trace =
      let unlocking : Command = record {
        trigger = codes "manual";
        args = codes "unlock" ∷ [];
        env = env;
      } in
      (unlocking ∷ trace, unlock_outcome (outside.run (unlocking ∷ trace)))

  unlock_at :
      RepositoryAccessRequest → Result Text → List Command → List Command × (ℕ × Option Error)
  unfolding unlock_with build_access_probe_env
  unlock_at r (err e) trace = (trace, (0, some e))
  unlock_at r (ok endpoint) trace = unlock_with (build_access_probe_env r endpoint) trace

  unfoldable pub unlock_repository_access :
      RepositoryAccessRequest → List Command → List Command × (ℕ × Option Error)
  unfolding unlock_at normalize_probe_endpoint
  unlock_repository_access r trace = unlock_at r (normalize_probe_endpoint r) trace
