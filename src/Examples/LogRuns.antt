-- ===== src/Examples/LogRuns.antt =====
-- Logs that are read: backend/internal/repository/log_store.go.
use mathlib.Core.List.{Permᴰ}
use auto_restic.Shared.{
  ◌++◌, zero, suc, ap, ltb, text_eq, if◌then◌else◌, ◌≡◌, ◌-◌, refl, ℕ, pos, false, List, [], ◌∷◌,
  Option, none, some, Text, codes, contains_text, length, take, drop, map, filter, arith,
}
use auto_restic.Output.Marker.{marker_prefix}
use auto_restic.Logs.{LogRow, LogQuery, query_logs, log_field, item_of, is_match}
use auto_restic.Logs.Views.{IsShown, shown, shown-IsShown}
use auto_restic.Logs.Pages.{IsLatestFirst, pages, pages_lem}

-- the last bytes
abbrev ends : ℕ → Text → Text
ends limit s = drop (length s - limit) s

take-drop : (n : ℕ) (s : Text) → take n s ++ drop n s ≡ s
take-drop zero s = refl
take-drop (suc n) [] = refl
take-drop (suc n) (c ∷ s) = ap (λ t. c ∷ t) (take-drop n s)

ends_of : (limit : ℕ) (s : Text) → (front : Text) × (front ++ ends limit s ≡ s)
ends_of limit s = (take (length s - limit) s, take-drop (length s - limit) s)

abbrev output : Text
output = codes "one\ntwo\n"

output_unmarked : contains_text (log_field ends 4 output).value marker_prefix ≡ false
unfolding log_field contains_text
output_unmarked = refl

shown-IsShown_example : IsShown output (shown ends 4 output)
shown-IsShown_example = shown-IsShown ends 4 output (omega arith) ends_of output_unmarked

abbrev row_of : ℕ → LogRow
row_of id = record {
  id = id;
  repo_id = some 7;
  task_id = none;
  command = codes "restic check";
  stdout = [];
  stderr = [];
  combined_output = [];
  exit_code = pos 0;
  status = codes "success";
  trigger = codes "manual";
  started_at = id;
  finished_at = none;
  duration_ms = 1;
}

abbrev log_rows : List LogRow
log_rows = row_of 2 ∷ row_of 3 ∷ row_of 1 ∷ []

insert_row : LogRow → List LogRow → List LogRow
insert_row r [] = r ∷ []
insert_row r (x ∷ xs) =
    let rest = insert_row r xs in if ltb r.started_at x.started_at then x ∷ rest else r ∷ x ∷ xs

by_start : List LogRow → List LogRow
by_start [] = []
by_start (r ∷ rs) = insert_row r (by_start rs)

abbrev all_of_7 : LogQuery
all_of_7 = record {
  repo_id = some 7;
  task_id = none;
  status = [];
  trigger = [];
  command = [];
  keyword = [];
  page = pos 1;
  page_size = pos 2;
}

abbrev no_name : ℕ → Option Text
no_name id = none

abbrev found_rows : List LogRow
found_rows = filter (is_match contains_text no_name 9 all_of_7) log_rows

by_start-Permᴰ : Permᴰ (by_start found_rows) found_rows
unfolding by_start insert_row is_match filter text_eq
by_start-Permᴰ = Permᴰ.swap refl refl

by_start-IsLatestFirst : IsLatestFirst (by_start found_rows)
unfolding by_start insert_row is_match filter text_eq
by_start-IsLatestFirst = ((omega arith, (omega arith, tt)), ((omega arith, tt), (tt, tt)))

pages_lem_example :
    (found : List LogRow) × (Permᴰ found found_rows
      × (IsLatestFirst found
          × ((pages contains_text no_name 9 by_start log_rows all_of_7 2
                ≡ map (item_of contains_text no_name 9) (take 4 found))
              × ((query_logs contains_text no_name 9 by_start log_rows all_of_7).total
                  ≡ length found_rows))))
pages_lem_example =
    pages_lem contains_text no_name 9 by_start log_rows all_of_7 2 by_start-Permᴰ
      by_start-IsLatestFirst (omega arith)
