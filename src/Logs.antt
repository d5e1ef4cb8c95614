-- ===== src/Logs.antt =====
-- Logs as they are read: backend/internal/repository/log_store.go and
-- backend/internal/service/log_service.go, with the records of
-- backend/internal/model/execution_log.go.
pub mod Views
pub mod Pages
use auto_restic.Shared.{
  ◌==◌, ◌&&◌, ◌||◌, ◌+◌, ◌-◌, ◌*◌, ◌%◌, ◌^◌, not, ℕ, suc, zero, ℤ, pos, negsuc, nat_eq, ltb, Bool,
  true, false, List, [], ◌∷◌, Option, none, some, Text, Eq-Text, codes, is_empty, if◌then◌else◌,
  length, take, drop, map, filter, i64_mod, is_neg,
}
use auto_restic.Exec.{Error, no_rows, external, Result, ok, err}
use auto_restic.Output.Marker.{
  ExecutionOutputMeta, clamp_log_output_limit, count_newlines, count_output_lines,
  append_output_truncation_marker, parse_output_truncation_marker,
}

-- a row of execution_logs; times are in milliseconds
pub record LogRow : Type 0 where
  pub id : ℕ
  pub repo_id : Option ℕ
  pub task_id : Option ℕ
  pub command : Text
  pub stdout : Text
  pub stderr : Text
  pub combined_output : Text
  pub exit_code : ℤ
  pub status : Text
  pub trigger : Text
  pub started_at : ℕ
  pub finished_at : Option ℕ
  pub duration_ms : ℕ

pub record LogFieldView : Type 0 where
  pub value : Text
  pub bytes : ℕ
  pub lines : ℕ

abbrev pub or_count : ℕ → ℕ → ℕ
or_count n counted = if nat_eq n 0 then counted else n

-- behind the counts
unfoldable pub cut_or_whole : Text → (bytes lines : ℕ) → Text × ExecutionOutputMeta
unfolding append_output_truncation_marker
cut_or_whole value bytes lines =
    if ltb (length value) bytes
    then (
      append_output_truncation_marker value bytes lines,
      record { truncated = true; original_bytes = bytes; original_lines = lines },
    )
    else (value, record { truncated = false; original_bytes = bytes; original_lines = lines })

unfoldable pub marked_or_cut :
    LogFieldView → Option ExecutionOutputMeta → Text × ExecutionOutputMeta
unfolding cut_or_whole count_output_lines
marked_or_cut f (some meta) = (f.value, meta)
marked_or_cut f none =
    cut_or_whole f.value (or_count f.bytes (length f.value))
      (or_count f.lines (count_output_lines f.value))

unfoldable pub normalize_log_output : LogFieldView → Text × ExecutionOutputMeta
unfolding marked_or_cut parse_output_truncation_marker
normalize_log_output f =
    if is_empty f.value && nat_eq f.bytes 0 && nat_eq f.lines 0
    then ([], record { truncated = false; original_bytes = 0; original_lines = 0 })
    else marked_or_cut f (parse_output_truncation_marker f.value)

-- The columns that GetByID selects of one text. `substr` is SQLite's substr(text, -limit), which
-- counts characters.
unfoldable pub log_field : (ℕ → Text → Text) → ℕ → Text → LogFieldView
unfolding count_newlines
log_field substr limit text = record {
  value = if ltb limit (length text) then substr limit text else text;
  bytes = length text;
  lines = count_newlines text;
}

unfoldable pub visible_duration_ms : Text → (started_at now stored : ℕ) → ℕ
visible_duration_ms status started_at now stored =
    if status == codes "running"
    then (if ltb stored (now - started_at) then now - started_at else stored)
    else stored

pub record ExecutionLog : Type 0 where
  pub row : LogRow
  pub stdout_meta : ExecutionOutputMeta
  pub stderr_meta : ExecutionOutputMeta
  pub combined_meta : ExecutionOutputMeta
  pub output_limit : ℕ

unfoldable pub find_log : ℕ → List LogRow → Option LogRow
find_log id [] = none
find_log id (r ∷ rs) = let rest = find_log id rs in if nat_eq r.id id then some r else rest

module _ (substr : ℕ → Text → Text) (now : ℕ) where
  -- a row as it is shown
  unfoldable pub log_view : ℕ → LogRow → ExecutionLog
  unfolding normalize_log_output log_field visible_duration_ms
  log_view limit r =
      let (stdout, stdout_meta) = normalize_log_output (log_field substr limit r.stdout) in
      let (stderr, stderr_meta) = normalize_log_output (log_field substr limit r.stderr) in
      let (combined, combined_meta) =
        normalize_log_output (log_field substr limit r.combined_output) in
      record {
        row = record r {
          stdout = stdout;
          stderr = stderr;
          combined_output = combined;
          duration_ms = visible_duration_ms r.status r.started_at now r.duration_ms;
        };
        stdout_meta = stdout_meta;
        stderr_meta = stderr_meta;
        combined_meta = combined_meta;
        output_limit = limit;
      }

  unfoldable pub get_log : List LogRow → ℕ → ℤ → Result ExecutionLog
  unfolding log_view find_log clamp_log_output_limit
  get_log rows id limit = elim (find_log id rows) [
    | none ↦ err no_rows
    | some r ↦ ok (log_view (clamp_log_output_limit limit) r)
  ]

pub record LogQuery : Type 0 where
  pub repo_id : Option ℕ
  pub task_id : Option ℕ
  pub status : Text
  pub trigger : Text
  pub command : Text
  pub keyword : Text
  pub page : ℤ
  pub page_size : ℤ

pub record LogListItem : Type 0 where
  pub id : ℕ
  pub repo_id : Option ℕ
  pub repo_name : Text
  pub task_id : Option ℕ
  pub command : Text
  pub exit_code : ℤ
  pub status : Text
  pub trigger : Text
  pub started_at : ℕ
  pub finished_at : Option ℕ
  pub duration_ms : ℕ

pub record PaginatedResult : Type 0 where
  pub items : List LogListItem
  pub total : ℕ
  pub page : ℕ
  pub size : ℕ

-- a number that is asked for, of a column that may be null
abbrev pub is_asked : Option ℕ → Option ℕ → Bool
is_asked none column = true
is_asked (some n) none = false
is_asked (some n) (some m) = nat_eq m n

abbrev pub page_of : ℤ → ℕ
page_of (pos n) = if ltb n 1 then 1 else n
page_of (negsuc n) = 1

abbrev pub size_of : ℤ → ℕ
size_of (pos n) = if ltb n 1 || ltb 200 n then 50 else n
size_of (negsuc n) = 50

-- The product is an int; SQLite takes a negative OFFSET for 0.
abbrev pub offset_of : (page size : ℕ) → ℕ
offset_of page size =
    let offset = ((page - 1) * size) % i64_mod in if is_neg offset then 0 else offset

-- `contains` is SQLite's LIKE with a % on either side of a text, `name` the name of a repository,
-- if it is there.
module _ (contains : Text → Text → Bool) (name : ℕ → Option Text) (now : ℕ) where
  unfoldable pub is_match : LogQuery → LogRow → Bool
  is_match q r =
      is_asked q.repo_id r.repo_id
      && is_asked q.task_id r.task_id
      && (is_empty q.status || r.status == q.status)
      && (is_empty q.trigger || r.trigger == q.trigger)
      && (is_empty q.command || contains r.command q.command)
      && (is_empty q.keyword
          || (contains r.stdout q.keyword
              || contains r.stderr q.keyword
              || contains r.command q.keyword))

  abbrev pub name_of : Option ℕ → Text
  name_of none = []
  name_of (some id) = elim (name id) [ none ↦ [] | some n ↦ n ]

  unfoldable pub item_of : LogRow → LogListItem
  unfolding visible_duration_ms
  item_of r = record {
    id = r.id;
    repo_id = r.repo_id;
    repo_name = name_of r.repo_id;
    task_id = r.task_id;
    command = r.command;
    exit_code = r.exit_code;
    status = r.status;
    trigger = r.trigger;
    started_at = r.started_at;
    finished_at = r.finished_at;
    duration_ms = visible_duration_ms r.status r.started_at now r.duration_ms;
  }

  -- `order_by` is SQLite's ORDER BY started_at DESC.
  unfoldable pub query_logs : (List LogRow → List LogRow) → List LogRow → LogQuery → PaginatedResult
  unfolding is_match item_of
  query_logs order_by rows q =
      let found = filter (is_match q) rows in
      let page = page_of q.page in
      let size = size_of q.page_size in
      record {
        items = map item_of (take size (drop (offset_of page size) (order_by found)));
        total = length found;
        page = page;
        size = size;
      }

-- Cancel: by the status of the log's row, and whether the executor has its command. The messages do
-- not give the log's number.
unfoldable pub cancel_log : Result Text → Bool → Option Error
cancel_log (err e) is_running = some e
cancel_log (ok status) is_running =
    if not (status == codes "running")
    then some (external (codes "log is not running"))
    else if is_running
    then none
    else some (external (codes "running command not found"))
