-- ===== src/Output/Streams.antt =====
-- The output buffers of one command, and the reading of its two pipes:
-- backend/internal/executor/executor.go.
pub mod Lines
pub mod Interleaving
use auto_restic.Shared.{
  ℕ, Bool, true, false, ◌&&◌, not, Option, none, some, List, [], ◌∷◌, ◌++◌, Text, codes, is_empty,
  nat_eq, if◌then◌else◌, ◌≡◌, refl, arith,
}
use auto_restic.Output.Marker.{newline, ends_line}
use auto_restic.Output.Buffer.{
  BoundedOutputBuffer, new_bounded_output_buffer, stored_output_limit_bytes, write_string,
  buffer_string,
}

-- The program names two streams.
pub data Stream : Type 0 where
  stdout stderr : Stream

pub record CommandOutputBuffers : Type 0 where
  pub full_combined : Bool
  pub stdout_result : Text
  pub stderr_result : Text
  pub combined_result : Text
  pub stdout_log : BoundedOutputBuffer
  pub stderr_log : BoundedOutputBuffer
  pub combined_log : BoundedOutputBuffer

abbrev pub new_command_output_buffers : Bool → CommandOutputBuffers
new_command_output_buffers full_combined = record {
  full_combined = full_combined;
  stdout_result = [];
  stderr_result = [];
  combined_result = [];
  stdout_log = new_bounded_output_buffer stored_output_limit_bytes;
  stderr_log = new_bounded_output_buffer stored_output_limit_bytes;
  combined_log = new_bounded_output_buffer stored_output_limit_bytes;
}

abbrev pub stream_name : Stream → Text
stream_name stdout = codes "stdout"
stream_name stderr = codes "stderr"

-- `normalized` of appendLine
abbrev pub normalized : Text → Bool → Text
normalized text has_newline =
    if has_newline
    then text ++ newline ∷ []
    else if not (is_empty text)
    then text ++ newline ∷ []
    else text

abbrev pub combined_line : Text → Text → Text
combined_line name text = codes "[" ++ (name ++ (codes "] " ++ (text ++ newline ∷ [])))

append_stream : Stream → Text → CommandOutputBuffers → CommandOutputBuffers
append_stream stdout line b = record b {
  stdout_result = b.stdout_result ++ line;
  stdout_log = write_string b.stdout_log line;
}
append_stream stderr line b = record b {
  stderr_result = b.stderr_result ++ line;
  stderr_log = write_string b.stderr_log line;
}

append_combined : Text → CommandOutputBuffers → CommandOutputBuffers
append_combined line b = record b {
  combined_result = if b.full_combined then b.combined_result ++ line else b.combined_result;
  combined_log = write_string b.combined_log line;
}

unfoldable pub append_line : CommandOutputBuffers → Stream → Text → Bool → CommandOutputBuffers
unfolding append_stream append_combined
append_line b stream text has_newline =
    append_combined (combined_line (stream_name stream) text)
      (append_stream stream (normalized text has_newline) b)

unfoldable pub append_pipe_error : CommandOutputBuffers → Text → CommandOutputBuffers
unfolding append_stream append_combined ends_line
append_pipe_error b text =
    let line = if not (is_empty text) && not (ends_line text) then text ++ newline ∷ [] else text in
    append_combined (combined_line (codes "error") text) (append_stream stderr line b)

-- stdout, stderr and the combined output that the caller gets
unfoldable pub result : CommandOutputBuffers → Text × Text × Text
unfolding buffer_string
result b = (
  b.stdout_result,
  b.stderr_result,
  if not b.full_combined then buffer_string b.combined_log else b.combined_result,
)

-- ReadString('\n') until the end of the input: each line, and whether a newline ended it.
unfoldable pub read_lines : Text → Text → List (Text × Bool)
read_lines line [] = if is_empty line then [] else (line, false) ∷ []
read_lines line (c ∷ s) = elim (nat_eq c newline) [
  | true ↦ (line, true) ∷ read_lines [] s
  | false ↦ read_lines (line ++ c ∷ []) s
]

-- A line of a stream, as it reaches the mutex that guards the buffers.
pub record OutputEvent : Type 0 where
  pub stream : Stream
  pub text : Text
  pub has_newline : Bool

abbrev pub event : Stream → Text × Bool → OutputEvent
event s line = record { stream = s; text = line.0; has_newline = line.1 }

-- readStream of both pipes, in the order in which the lines reach the buffers.
unfoldable pub record_all : CommandOutputBuffers → List OutputEvent → CommandOutputBuffers
record_all b [] = b
record_all b (e ∷ es) = record_all (append_line b e.stream e.text e.has_newline) es
