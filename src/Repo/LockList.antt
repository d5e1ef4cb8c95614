-- ===== src/Repo/LockList.antt =====
-- The locks that restic lists: listRepositoryLocks and parseResticLocks of
-- backend/internal/service/repo_service.go.
use auto_restic.Shared.{
  ◌||◌, ◌&&◌, ◌++◌, ℤ, pos, Bool, true, false, List, [], ◌∷◌, Option, none, some, Text, is_empty,
  is_zero, trim_space, split_at, if◌then◌else◌,
}
use auto_restic.Exec.{command_failed, Result, ok, err, ExecResult}
use auto_restic.Repo.Access.{has_restic_lock_ids, is_lock_error, is_exit_11}

pub record ResticLockInfo : Type 0 where
  pub id : Text
  pub time : Text
  pub exclusive : Bool
  pub hostname : Text
  pub username : Text
  pub pid : ℤ
  pub uid : ℤ
  pub gid : ℤ

-- resticLockInfo{}
abbrev pub unknown_lock : ResticLockInfo
unknown_lock = record {
  id = [];
  time = [];
  exclusive = false;
  hostname = [];
  username = [];
  pid = pos 0;
  uid = pos 0;
  gid = pos 0;
}

-- json.Unmarshal into a list, with whether it succeeds and what is in the list then; into an object
-- with a list under `locks`, which may be null; and into one lock.
pub record LockJson : Type 0 where
  pub list : Text → Bool × List ResticLockInfo
  pub wrapped : Text → Option (Option (List ResticLockInfo))
  pub single : Text → Option ResticLockInfo

abbrev pub no_locks : List ResticLockInfo → Bool
no_locks [] = true
no_locks (_ ∷ _) = false

module _ (json : LockJson) where
  lines_of_locks : List Text → List ResticLockInfo
  lines_of_locks [] = []
  lines_of_locks (line ∷ lines) =
      let rest = lines_of_locks lines in
      elim (json.single (trim_space line)) [
        | none ↦ rest
        | some lock ↦ if is_empty (trim_space line) then rest else lock ∷ rest
      ]

  one_or_lines : Text → List ResticLockInfo → Option ResticLockInfo → List ResticLockInfo
  unfolding lines_of_locks
  one_or_lines output listed (some lock) = lock ∷ []
  one_or_lines output listed none = listed ++ lines_of_locks (split_at 10 output)

  wrapped_or_other :
      Text → List ResticLockInfo → Option (Option (List ResticLockInfo)) → List ResticLockInfo
  unfolding one_or_lines
  wrapped_or_other output listed (some (some locks)) = locks
  wrapped_or_other output listed _ = one_or_lines output listed (json.single output)

  listed_or_other : Text → Bool × List ResticLockInfo → List ResticLockInfo
  unfolding wrapped_or_other
  listed_or_other output (true, locks) = locks
  listed_or_other output (false, locks) = wrapped_or_other output locks (json.wrapped output)

  unfoldable pub parse_restic_locks : Text → List ResticLockInfo
  unfolding listed_or_other trim_space
  parse_restic_locks output =
      let trimmed = trim_space output in
      if is_empty trimmed then [] else listed_or_other trimmed (json.list trimmed)

  abbrev or_next : Text → Text → Text
  or_next first next = if is_empty first then next else first

  unfoldable pub list_output : ExecResult → Text
  list_output r =
      or_next (trim_space r.stdout) (or_next (trim_space r.combined_output) (trim_space r.stderr))

  -- what a listing that ran says, and the text it says it with
  unfoldable pub locks_in : ExecResult → Text → Result (List ResticLockInfo × Text)
  unfolding parse_restic_locks has_restic_lock_ids is_lock_error
  locks_in r output =
      if is_zero r.exit_code
      then (let locks = parse_restic_locks output in
          ok (
            (if no_locks locks && has_restic_lock_ids output then unknown_lock ∷ [] else locks),
            output,
          ))
      else if is_lock_error output || is_exit_11 r.exit_code
      then ok (unknown_lock ∷ [], output)
      else err (command_failed (trim_space output))

  -- listRepositoryLocks, by the result of its command
  unfoldable pub list_repository_locks : ExecResult → Result (List ResticLockInfo × Text)
  unfolding locks_in list_output
  list_repository_locks r = elim r.error [ some e ↦ err e | none ↦ locks_in r (list_output r) ]
