-- ===== src/Output/Buffer.antt =====
-- The bounded buffer of backend/internal/executor/executor.go: it keeps the last bytes that were
-- written, and counts all of them.
pub mod Tail
use auto_restic.Shared.{
  ℕ, ◌+◌, ◌-◌, ◌*◌, Bool, true, false, List, [], ◌∷◌, ◌++◌, Text, is_empty, leb, length, drop,
  if◌then◌else◌, add64,
}
use auto_restic.Output.Marker.{count_output_lines, append_output_truncation_marker}

abbrev pub stored_output_limit_bytes : ℕ
stored_output_limit_bytes = 128 * 1024

pub record BoundedOutputBuffer : Type 0 where
  pub limit : ℕ
  pub tail : Text
  pub original_bytes : ℕ
  pub original_lines : ℕ
  pub truncated : Bool

abbrev pub new_bounded_output_buffer : ℕ → BoundedOutputBuffer
new_bounded_output_buffer limit = record {
  limit = limit;
  tail = [];
  original_bytes = 0;
  original_lines = 0;
  truncated = false;
}

unfoldable pub write_string : BoundedOutputBuffer → Text → BoundedOutputBuffer
write_string b text =
    let counted = record b {
      original_bytes = add64 b.original_bytes (length text);
      original_lines = add64 b.original_lines (count_output_lines text);
      tail = b.tail ++ text;
    } in
    if is_empty text
    then b
    else if leb b.limit 0
    then counted
    else if leb (length counted.tail) b.limit
    then counted
    else record counted {
      truncated = true;
      tail = drop (length counted.tail - b.limit) counted.tail;
    }

unfoldable pub buffer_string : BoundedOutputBuffer → Text
buffer_string b =
    if b.truncated
    then append_output_truncation_marker b.tail b.original_bytes b.original_lines
    else b.tail

-- Several writes in turn.
unfoldable pub write_all : BoundedOutputBuffer → List Text → BoundedOutputBuffer
write_all b [] = b
write_all b (t ∷ ts) = write_all (write_string b t) ts
