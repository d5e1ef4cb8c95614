-- ===== src/Cache/State.antt =====
-- The rows that the cache keeps of one repository, and the statements on them:
-- backend/internal/service/repo_cache_service.go, with the keys of
-- backend/internal/db/migrations.go. Every statement names the repository, so those of another one
-- are out of the picture.
use auto_restic.Shared.{ℕ, Bool, List, Option, Text, Eq-ℕ, Eq-Text, nat_eq}
use auto_restic.Cache.Queue.{FileIndexRequest}
use auto_restic.Exec.{Error, ExecResult}
use auto_restic.Fallible
unfoldable pub use auto_restic.Fallible.{
  continue_with, ◌>>=◌, return, asks, throw, as_value, attempt, ignore,
}

pub data Domain : Type 0 where
  core files stats keys check : Domain

pub data Status : Type 0 where
  running success failed stale interrupted partial : Status

unfoldable pub domain_index : Domain → ℕ
domain_index core = 0
domain_index files = 1
domain_index stats = 2
domain_index keys = 3
domain_index check = 4

unfoldable pub same_domain : Domain → Domain → Bool
unfolding domain_index
same_domain a b = nat_eq (domain_index a) (domain_index b)

pub record SyncState : Type 0 where
  pub status : Status
  pub phase : Text
  pub progress : ℕ
  pub generation : ℕ
  pub last_success_at : Option ℕ
  pub last_error : Text
  pub log_id : Option ℕ
  pub updated_at : ℕ

-- How a backup went, as the summary of a snapshot has it.
pub record Summary : Type 0 where
  pub summary : Text
  pub backup_start : Text
  pub backup_end : Text
  pub files_new : ℕ
  pub files_changed : ℕ
  pub files_unmodified : ℕ
  pub dirs_new : ℕ
  pub dirs_changed : ℕ
  pub dirs_unmodified : ℕ
  pub data_blobs : ℕ
  pub tree_blobs : ℕ
  pub data_added : ℕ
  pub data_added_packed : ℕ
  pub total_files_processed : ℕ
  pub total_bytes_processed : ℕ

-- What the cache reads of a snapshot; the other columns are copied as they come.
pub record Snapshot : Type 0 where
  pub id : Text
  pub time : Text
  pub paths : Text
  pub about : Summary

-- a row of repository_snapshots; its key is the pair of identifier and generation
pub record SnapshotRow : Type 0 where
  pub generation : ℕ
  pub snapshot : Snapshot

-- a row of repository_snapshot_file_indexes; its key is the pair of snapshot and path
pub record FileIndex : Type 0 where
  pub snapshot_id : Text
  pub path : Text
  pub status : Status
  pub stale : Bool
  pub generation : ℕ

-- The rows, and how many statements were executed. The restic config and the stats have their
-- generation as the key, beside what was reported.
pub record Db : Type 0 where
  pub sync_states : Domain → Option SyncState
  pub restic_config : List (ℕ × Text)
  pub stats : List (ℕ × Text)
  pub snapshots : List SnapshotRow
  pub file_indexes : List FileIndex
  pub file_work : List FileIndexRequest
  pub executed : ℕ

-- A computation on the rows.
abbrev pub M : Type 0 → Type 0
M A = Fallible.M Db A

-- Which statement fails with which message, and the clock, both by the number of statements before.
-- `reported` is what a restic command returns and `started` the log that it announced, if it did;
-- `is_object` and `decode_snapshots` decode JSON.
pub record Env : Type 0 where
  pub fault : ℕ → Option Text
  pub clock : ℕ → ℕ
  pub reported : List Text → ℕ → ExecResult × Option Error
  pub started : List Text → ℕ → Option ℕ
  -- err.Error()
  pub error_text : Error → Text
  pub is_object : Text → Bool
  pub decode_snapshots : Text → Option (List Snapshot)
