-- ===== src/Output/Streams/Interleaving.antt =====
-- The two pipes of a command, read at once, and the orders in which their lines can reach the
-- buffers: backend/internal/executor/executor.go.
use auto_restic.Shared.{
  ◌≡◌, refl, sym, ◌∙◌, Bool, true, List, [], ◌∷◌, ◌++◌, arith, Text, append_assoc, append-nil,
}
use auto_restic.Output.Marker.{ends_line, end_line}
use auto_restic.Output.Buffer.{stored_output_limit_bytes}
use auto_restic.Output.Buffer.Tail.{Holds, Holds-write_string, Holds-new}
use auto_restic.Output.Streams.{
  Stream, stdout, stderr, CommandOutputBuffers, new_command_output_buffers, append_line,
  append_pipe_error, read_lines, OutputEvent, event, record_all,
}
use auto_restic.Output.Streams.Lines.{line_text, read_lines-text}

-- The events take the lines of both streams, those of each in their order.
pub data Interleaved : List (Text × Bool) → List (Text × Bool) → List OutputEvent → Type 0 where
  done : Interleaved [] [] []
  out :
      {outs errs : List (Text × Bool)} {es : List OutputEvent} (line : Text × Bool)
      → Interleaved outs errs es
      → Interleaved (line ∷ outs) errs (event stdout line ∷ es)
  error :
      {outs errs : List (Text × Bool)} {es : List OutputEvent} (line : Text × Bool)
      → Interleaved outs errs es
      → Interleaved outs (line ∷ errs) (event stderr line ∷ es)

-- The stored logs are the ends of the texts that the buffers hold.
pub record IsStored (b : CommandOutputBuffers) : Type 0 where
  pub stdout_stored : Holds b.stdout_result b.stdout_log
  pub stderr_stored : Holds b.stderr_result b.stderr_log
  pub combined_stored : b.full_combined ≡ true → Holds b.combined_result b.combined_log

pub IsStored-new : (full : Bool) → IsStored (new_command_output_buffers full)
IsStored-new full = record {
  stdout_stored = Holds-new stored_output_limit_bytes (omega arith);
  stderr_stored = Holds-new stored_output_limit_bytes (omega arith);
  combined_stored = λ _. Holds-new stored_output_limit_bytes (omega arith);
}

pub IsStored-append_line :
    (b : CommandOutputBuffers) (s : Stream) (text : Text) (n : Bool)
    → IsStored b
    → IsStored (append_line b s text n)
unfolding append_line
IsStored-append_line b stdout text n h = record {
  stdout_stored = Holds-write_string _ _ _ h.stdout_stored;
  stderr_stored = h.stderr_stored;
  combined_stored = λ full. rw full (Holds-write_string _ _ _ (h.combined_stored full));
}
IsStored-append_line b stderr text n h = record {
  stdout_stored = h.stdout_stored;
  stderr_stored = Holds-write_string _ _ _ h.stderr_stored;
  combined_stored = λ full. rw full (Holds-write_string _ _ _ (h.combined_stored full));
}

-- A pipe that fails is reported in the error stream and the combined output; the stored logs still
-- are the ends of what the buffers hold.
pub IsStored-append_pipe_error :
    (b : CommandOutputBuffers) (text : Text) → IsStored b → IsStored (append_pipe_error b text)
unfolding append_pipe_error
IsStored-append_pipe_error b text h = record {
  stdout_stored = h.stdout_stored;
  stderr_stored = Holds-write_string _ _ _ h.stderr_stored;
  combined_stored = λ full. rw full (Holds-write_string _ _ _ (h.combined_stored full));
}

pub IsStored-record_all :
    (b : CommandOutputBuffers) (es : List OutputEvent) → IsStored b → IsStored (record_all b es)
unfolding record_all
IsStored-record_all b [] h = h
IsStored-record_all b (e ∷ es) h =
    IsStored-record_all (append_line b e.stream e.text e.has_newline) es
      (IsStored-append_line b e.stream e.text e.has_newline h)

-- Both results after an interleaving of lines of the two streams.
record_all-Interleaved :
    {outs errs : List (Text × Bool)} {es : List OutputEvent} (b : CommandOutputBuffers)
    → Interleaved outs errs es
    → ((record_all b es).stdout_result ≡ b.stdout_result ++ line_text outs)
      × ((record_all b es).stderr_result ≡ b.stderr_result ++ line_text errs)
unfolding record_all append_line
record_all-Interleaved b done = (sym (append-nil _), sym (append-nil _))
record_all-Interleaved b (out (t, n) i) =
    let (o, e) = record_all-Interleaved (append_line b stdout t n) i in
    (o ∙ append_assoc b.stdout_result _ _, e)
record_all-Interleaved b (error (t, n) i) =
    let (o, e) = record_all-Interleaved (append_line b stderr t n) i in
    (o, e ∙ append_assoc b.stderr_result _ _)

-- A command prints `out_text` and `error_text` on its two pipes, and the lines read from them
-- reach the buffers in any order. Then each result is what its pipe printed, with a newline
-- behind a last line that has none, and each stored log is the end of that.
pub record_all-exact :
    (full : Bool) (out_text error_text : Text) (es : List OutputEvent)
    → Interleaved (read_lines [] out_text) (read_lines [] error_text) es
    → let b = record_all (new_command_output_buffers full) es in
      (b.stdout_result ≡ end_line out_text) × (b.stderr_result ≡ end_line error_text) × IsStored b
unfolding ends_line
record_all-exact full out_text error_text es i =
    let (o, e) = record_all-Interleaved (new_command_output_buffers full) i in
    (
      o ∙ read_lines-text [] out_text refl,
      e ∙ read_lines-text [] error_text refl,
      IsStored-record_all _ es (IsStored-new full),
    )
