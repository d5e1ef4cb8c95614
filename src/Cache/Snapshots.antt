-- ===== src/Cache/Snapshots.antt =====
-- The snapshots in the cache: replaceSnapshots, snapshotSummaryIsEmpty, fillSnapshotSummaryFromDB,
-- storeResticConfig, finalizeCoreGeneration and collectRootPathsForCurrentSnapshots of
-- backend/internal/service/repo_cache_service.go. A transaction is one statement here: it is
-- committed as a whole or fails as a whole, so the batches in which it inserts are not seen.
use auto_restic.Shared.{
  zero, suc, ℕ, Bool, true, false, List, [], ◌∷◌, Option, none, some, Text, codes, ◌==◌, Eq-ℕ,
  Eq-Text, nat_eq, lookup, if◌then◌else◌, ltb, ◌&&◌, ◌||◌, not, is_empty, trim_space, filter, take,
  map,
}
use auto_restic.Task.Sort.{text_le}
use auto_restic.Exec.{external, parse_error, Result, ok, err}
use auto_restic.Cache.Queue.{FileIndexRequest, enqueue_file_index}
use auto_restic.Cache.State.{core, Summary, Snapshot, SnapshotRow, Db, M, ◌>>=◌, return, Env}
use auto_restic.Cache.Rows.{at_fault, counted, exec, query, current_generation}

abbrev pub no_summary : Text
no_summary = codes "{}"

unfoldable pub snapshot_summary_is_empty : Summary → Bool
snapshot_summary_is_empty a =
    is_empty a.summary
    && is_empty a.backup_start
    && is_empty a.backup_end
    && nat_eq a.files_new 0
    && nat_eq a.files_changed 0
    && nat_eq a.files_unmodified 0
    && nat_eq a.dirs_new 0
    && nat_eq a.dirs_changed 0
    && nat_eq a.dirs_unmodified 0
    && nat_eq a.data_blobs 0
    && nat_eq a.tree_blobs 0
    && nat_eq a.data_added 0
    && nat_eq a.data_added_packed 0
    && nat_eq a.total_files_processed 0
    && nat_eq a.total_bytes_processed 0

-- the condition of the query for a known summary
unfoldable pub has_summary : Summary → Bool
has_summary a =
    not (a.summary == no_summary)
    || not (nat_eq a.total_files_processed 0)
    || not (nat_eq a.total_bytes_processed 0)
    || not (nat_eq a.data_added 0)
    || not (nat_eq a.data_added_packed 0)

-- ORDER BY generation DESC LIMIT 1
abbrev pub newer_row : SnapshotRow → Option SnapshotRow → SnapshotRow
newer_row row none = row
newer_row row (some other) = if ltb row.generation other.generation then other else row

unfoldable pub known_summary : Text → List SnapshotRow → Option SnapshotRow
unfolding has_summary
known_summary id [] = none
known_summary id (row ∷ rows) =
    let rest = known_summary id rows in
    if row.snapshot.id == id && has_summary row.snapshot.about
    then some (newer_row row rest)
    else rest

-- a summary as it is read back
abbrev pub read_summary : Summary → Summary
read_summary a =
    if not (is_empty (trim_space a.summary)) && not (a.summary == no_summary)
    then a
    else record a { summary = [] }

abbrev pub summary_of : Option SnapshotRow → Summary → Summary
summary_of none own = own
summary_of (some row) own = read_summary row.snapshot.about

unfoldable pub fill_snapshot_summary : List SnapshotRow → Snapshot → Snapshot
unfolding known_summary
fill_snapshot_summary rows snap = record snap {
  about = summary_of (known_summary snap.id rows) snap.about;
}

-- a summary as it is stored
abbrev pub stored_summary : Summary → Summary
stored_summary a = if is_empty a.summary then record a { summary = no_summary } else a

-- ON CONFLICT(repo_id, snapshot_id, generation) DO UPDATE
unfoldable pub upsert_snapshot : SnapshotRow → List SnapshotRow → List SnapshotRow
upsert_snapshot new [] = new ∷ []
upsert_snapshot new (row ∷ rows) =
    let rest = upsert_snapshot new rows in
    if row.snapshot.id == new.snapshot.id && nat_eq row.generation new.generation
    then new ∷ rows
    else row ∷ rest

unfoldable pub insert_snapshot : ℕ → Snapshot → List SnapshotRow → List SnapshotRow
unfolding snapshot_summary_is_empty fill_snapshot_summary upsert_snapshot
insert_snapshot generation snap rows =
    let filled =
      if snapshot_summary_is_empty snap.about then fill_snapshot_summary rows snap else snap in
    upsert_snapshot
      (record {
        generation = generation;
        snapshot = record filled { about = stored_summary filled.about };
      })
      rows

unfoldable pub insert_snapshots : ℕ → List Snapshot → List SnapshotRow → List SnapshotRow
unfolding insert_snapshot
insert_snapshots generation [] rows = rows
insert_snapshots generation (snap ∷ snaps) rows =
    insert_snapshots generation snaps (insert_snapshot generation snap rows)

-- what stays when a generation is made the only one
unfoldable pub of_generation : ℕ → List SnapshotRow → List SnapshotRow
of_generation generation rows = filter (λ row. nat_eq row.generation generation) rows

has_snapshot : List SnapshotRow → Text → Bool
has_snapshot [] id = false
has_snapshot (row ∷ rows) id = row.snapshot.id == id || has_snapshot rows id

unfoldable pub keep_generation : ℕ → Db → Db
unfolding of_generation has_snapshot
keep_generation generation db =
    let kept = of_generation generation db.snapshots in
    record db {
      snapshots = kept;
      restic_config = filter (λ config. nat_eq config.0 generation) db.restic_config;
      file_indexes = filter (λ index. has_snapshot kept index.snapshot_id) db.file_indexes;
    }

-- ORDER BY time DESC, snapshot_id DESC
before_row : SnapshotRow → SnapshotRow → Bool
before_row a b =
    if a.snapshot.time == b.snapshot.time
    then text_le b.snapshot.id a.snapshot.id
    else text_le b.snapshot.time a.snapshot.time

insert_row : SnapshotRow → List SnapshotRow → List SnapshotRow
unfolding before_row
insert_row row [] = row ∷ []
insert_row row (other ∷ rows) =
    let rest = insert_row row rows in
    if before_row row other then row ∷ other ∷ rows else other ∷ rest

unfoldable pub newest_first : List SnapshotRow → List SnapshotRow
unfolding insert_row
newest_first [] = []
newest_first (row ∷ rows) = insert_row row (newest_first rows)

abbrev pub root_request : SnapshotRow → FileIndexRequest
root_request row = record {
  snapshot_id = row.snapshot.id;
  path = [];
  force = false;
  prewarm = true;
}

abbrev pub enqueue_all : List FileIndexRequest → List FileIndexRequest → List FileIndexRequest
enqueue_all [] queue = queue
enqueue_all (req ∷ reqs) queue = enqueue_all reqs (enqueue_file_index req queue)

module _ (env : Env) where
  -- INSERT under the key of repository and generation, without a conflict clause
  unfoldable pub insert_config : ℕ → Text → Option Text → Db → Db × Result Bool
  insert_config generation payload none db =
      (record db { restic_config = (generation, payload) ∷ db.restic_config }, ok true)
  insert_config generation payload (some old) db =
      (db, err (external (codes "UNIQUE constraint failed: repository_restic_config")))

  unfoldable pub store_restic_config : ℕ → Text → M Bool
  unfolding insert_config
  store_restic_config generation payload db =
      if env.is_object payload
      then at_fault (env.fault db.executed) (counted db)
          (insert_config generation payload (lookup generation db.restic_config) (counted db))
      else (db, err (parse_error (codes "config")))

  abbrev pub decoded : ℕ → Option (List Snapshot) → Db → Db × Result Bool
  decoded generation none db = (db, err (parse_error (codes "snapshots")))
  decoded generation (some snaps) db =
      (record db { snapshots = insert_snapshots generation snaps db.snapshots }, ok true)

  unfoldable pub replace_snapshots : ℕ → Text → M Bool
  replace_snapshots generation payload db =
      at_fault (env.fault db.executed) (counted db)
        (decoded generation (env.decode_snapshots payload) (counted db))

  unfoldable pub finalize_core_generation : ℕ → M Bool
  unfolding exec keep_generation
  finalize_core_generation generation = exec env (keep_generation generation)

  -- the newest three of the current generation
  unfoldable pub root_paths : ℕ → M (List FileIndexRequest)
  root_paths zero = return []
  root_paths (suc n) =
      query env
        (λ db. map root_request (take 3 (newest_first (of_generation (suc n) db.snapshots))))

  unfoldable pub collect_root_paths : M (List FileIndexRequest)
  unfolding root_paths
  collect_root_paths = do generation ← current_generation env core; root_paths generation

  unfoldable pub queue_latest_snapshot_root_prewarm : M Bool
  unfolding collect_root_paths
  queue_latest_snapshot_root_prewarm = do
    paths ← collect_root_paths
    λ db. (record db { file_work = enqueue_all paths db.file_work }, ok true)
