-- ===== src/Reservation/Classify.antt =====
-- What class of operation a command is.
use auto_restic.Shared.{refl, [], ◌∷◌, true, ℕ, ◌≡◌, arith, Option, none, some, Text, List}
use auto_restic.Reservation.{exclusive, classify_repo_operation, scheduled_command_needs_lock}

-- A scheduled command that has to wait for restic's own locks is never classed as a read, whether
-- it belongs to a task or not.
pub needs_lock-exclusive :
    (task_id : Option ℕ) (args : List Text)
    → scheduled_command_needs_lock args ≡ true
    → (classify_repo_operation task_id args).1 ≡ exclusive
unfolding classify_repo_operation scheduled_command_needs_lock
needs_lock-exclusive (some t) args h = refl
needs_lock-exclusive none [] h = cc
needs_lock-exclusive none (arg ∷ rest) h = ground arith
