-- ===== src/Reservation/Threads.antt =====
-- The requests that run at once: each acquires, may have to wait, and releases what it holds.
use auto_restic.Shared.{ℕ, ◌≡◌, Bool, true, some, Text, nat_eq, if◌then◌else◌}
use auto_restic.Reservation.{
  RepoOperationClass, RepoOperationReservation, RepoOps, no_ops, Attempt, acquired, busy, blocked,
  acquire_repo_operation, release_repo_operation,
}

-- What a request asks for.
pub record Call : Type 0 where
  pub repo_id : ℕ
  pub kind : Text
  pub class : RepoOperationClass
  pub wait : Bool

pub data Thread : Type 0 where
  idle : Thread
  waiting : Call → (channel : ℕ) → Thread
  holding : RepoOperationReservation → Thread

pub record System : Type 0 where
  pub service : RepoOps
  pub threads : ℕ → Thread

abbrev pub set_thread : (ℕ → Thread) → ℕ → Thread → ℕ → Thread
set_thread threads i t j = if nat_eq i j then t else threads j

-- The thread's state behind a round of acquireRepoOperation.
abbrev pub after_attempt : Call → Attempt → Thread
after_attempt c (acquired r) = holding r
after_attempt c (busy _ _) = idle
after_attempt c (blocked channel) = waiting c channel

unfoldable pub attempt : System → ℕ → Call → System
attempt s i c =
    let (a, service) = acquire_repo_operation s.service c.repo_id c.kind c.class c.wait in
    record { service = service; threads = set_thread s.threads i (after_attempt c a) }

abbrev pub initial : System
initial = record { service = no_ops; threads = λ _. idle }

-- A step of one thread. A thread goes round the loop of acquireRepoOperation when the channel that
-- it waits on is closed; when its context is done it gives up.
pub data Step (s : System) : System → Type 0 where
  enter : (i : ℕ) (c : Call) → s.threads i ≡ idle → Step s (attempt s i c)
  wake :
      (i : ℕ) (c : Call) (channel : ℕ)
      → s.threads i ≡ waiting c channel
      → s.service.closed channel ≡ true
      → Step s (attempt s i c)
  give_up :
      (i : ℕ) (c : Call) (channel : ℕ)
      → s.threads i ≡ waiting c channel
      → Step s (record s { threads = set_thread s.threads i idle })
  leave :
      (i : ℕ) (r : RepoOperationReservation) (service : RepoOps)
      → s.threads i ≡ holding r
      → release_repo_operation s.service r ≡ some service
      → Step s (record { service = service; threads = set_thread s.threads i idle })

pub data Reach : System → Type 0 where
  start : Reach initial
  next : {s t : System} → Reach s → Step s t → Reach t
