-- ===== src/Task/Hooks/Merge.antt =====
-- The result of a run whose post-hooks failed.
use auto_restic.Shared.{
  zero, suc, is_some, ◌≡◌, refl, true, false, Option, some, ℤ, pos, negsuc, is_zero, if◌then◌else◌,
}
use auto_restic.Exec.{ExecResult, Error}
use auto_restic.Task.Hooks.{merge_hook_failure, failure_code, join_errors}

failure_code_lem : (code : ℤ) → is_zero (failure_code code) ≡ false
failure_code_lem (pos zero) = refl
failure_code_lem (pos (suc n)) = refl
failure_code_lem (negsuc n) = refl

merged_code : (own hook : ℤ) → is_zero (if is_zero own then failure_code hook else own) ≡ false
merged_code (pos zero) hook = failure_code_lem hook
merged_code (pos (suc n)) hook = refl
merged_code (negsuc n) hook = refl

join_errors_lem : (own : Option Error) (hook : Error) → is_some (some (join_errors own hook)) ≡ true
join_errors_lem own hook = refl

-- A result with the failure of a hook merged into it reports a failure: its exit code is not zero,
-- even where a hook that failed to start has exit code zero, and it has an error. Its stdout and
-- its log are the backup's.
pub merge_hook_failure_fails :
    (result hook_result : ExecResult) (e : Error)
    → let merged = merge_hook_failure result hook_result (some e) in
      (is_zero merged.exit_code ≡ false)
      × ((is_some merged.error ≡ true)
          × ((merged.stdout ≡ result.stdout) × (merged.log_id ≡ result.log_id)))
unfolding merge_hook_failure
merge_hook_failure_fails result hook_result e =
    (merged_code result.exit_code hook_result.exit_code, (refl, (refl, refl)))
