-- ===== src/Examples/OutputRuns.antt =====
-- A command with some output, a buffer that overflows and a marker that is read back:
-- backend/internal/executor/executor.go and backend/internal/model/execution_log.go.
use auto_restic.Shared.{
  ◌%◌, ◌≡◌, refl, true, false, List, [], ◌∷◌, some, Text, codes, contains_text, length, ltb,
  i64_mod, arith,
}
use auto_restic.Output.Marker.{
  clamp_negative, parse_output_truncation_marker, append_output_truncation_marker, marker_prefix,
  end_line,
}
use auto_restic.Output.Marker.RoundTrip.{parse-append_marker}
use auto_restic.Output.Buffer.{new_bounded_output_buffer, write_all}
use auto_restic.Output.Buffer.Tail.{last_bytes, concat, write_all-Holds}
use auto_restic.Output.Streams.{
  stdout, stderr, new_command_output_buffers, read_lines, OutputEvent, event, record_all,
}
use auto_restic.Output.Streams.Interleaving.{
  Interleaved, out, error, done, IsStored, record_all-exact,
}

abbrev log_text : Text
log_text = codes "log"

log_text-marker : contains_text log_text marker_prefix ≡ false
unfolding contains_text
log_text-marker = refl

parse-append_marker_example :
    parse_output_truncation_marker (append_output_truncation_marker log_text 5 1)
    ≡ some (record {
      truncated = true;
      original_bytes = clamp_negative 5;
      original_lines = clamp_negative 1;
    })
parse-append_marker_example = parse-append_marker log_text 5 1 log_text-marker

abbrev two_writes : List Text
two_writes = codes "ab" ∷ codes "cd" ∷ []

write_all-Holds_example :
    ((write_all (new_bounded_output_buffer 3) two_writes).tail ≡ last_bytes 3 (concat two_writes))
    × ((write_all (new_bounded_output_buffer 3) two_writes).original_bytes
        ≡ length (concat two_writes) % i64_mod)
    × ((write_all (new_bounded_output_buffer 3) two_writes).truncated
        ≡ ltb 3 (length (concat two_writes)))
write_all-Holds_example = write_all-Holds 3 two_writes (omega arith)

-- `a` and a newline on stdout, `b` on stderr, which is read first
abbrev out_text : Text
out_text = 97 ∷ 10 ∷ []

abbrev error_text : Text
error_text = codes "b"

abbrev events : List OutputEvent
events = event stderr (codes "b", false) ∷ event stdout (codes "a", true) ∷ []

events-Interleaved : Interleaved (read_lines [] out_text) (read_lines [] error_text) events
unfolding read_lines
events-Interleaved = error (codes "b", false) (out (codes "a", true) done)

record_all-exact_example :
    ((record_all (new_command_output_buffers true) events).stdout_result ≡ end_line out_text)
    × ((record_all (new_command_output_buffers true) events).stderr_result ≡ end_line error_text)
    × IsStored (record_all (new_command_output_buffers true) events)
record_all-exact_example = record_all-exact true out_text error_text events events-Interleaved
