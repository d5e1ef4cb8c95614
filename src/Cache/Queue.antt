-- ===== src/Cache/Queue.antt =====
-- The file index work that waits: enqueueFileIndex and dequeueFileIndex of
-- backend/internal/service/repo_cache_service.go, for one repository.
use auto_restic.Shared.{
  zero, suc, ℕ, Bool, true, false, not, ◌&&◌, List, [], ◌∷◌, Option, none, some, Text, ◌==◌,
  Eq-Text, if◌then◌else◌,
}

pub record FileIndexRequest : Type 0 where
  pub snapshot_id : Text
  pub path : Text
  pub force : Bool
  pub prewarm : Bool

-- Two requests for one snapshot and path. The key of the map is their text, with `|` between them;
-- the identifiers of snapshots are hexadecimal, so that the text tells them apart.
unfoldable pub same_target : FileIndexRequest → FileIndexRequest → Bool
same_target a b = a.snapshot_id == b.snapshot_id && a.path == b.path

-- what an entry becomes when it is asked for again
unfoldable pub merge_request : FileIndexRequest → FileIndexRequest → FileIndexRequest
merge_request existing req = record existing {
  force = if req.force && not existing.force then true else existing.force;
  prewarm = if not req.prewarm && existing.prewarm then false else existing.prewarm;
}

unfoldable pub enqueue_file_index : FileIndexRequest → List FileIndexRequest → List FileIndexRequest
unfolding same_target merge_request
enqueue_file_index req [] = req ∷ []
enqueue_file_index req (existing ∷ queue) =
    let rest = enqueue_file_index req queue in
    if same_target existing req then merge_request existing req ∷ queue else existing ∷ rest

abbrev pub keep_first :
    FileIndexRequest
    → Option (FileIndexRequest × List FileIndexRequest)
    → Option (FileIndexRequest × List FileIndexRequest)
keep_first req none = none
keep_first req (some (found, queue)) = some (found, req ∷ queue)

-- Go ranges over a map in an order of its choice, and the first entry is taken: the entry at a
-- place that is given, or the last where there are fewer.
unfoldable pub dequeue_file_index :
    ℕ → List FileIndexRequest → Option (FileIndexRequest × List FileIndexRequest)
dequeue_file_index place [] = none
dequeue_file_index place (req ∷ []) = some (req, [])
dequeue_file_index zero (req ∷ next ∷ queue) = some (req, next ∷ queue)
dequeue_file_index (suc place) (req ∷ next ∷ queue) =
    keep_first req (dequeue_file_index place (next ∷ queue))
