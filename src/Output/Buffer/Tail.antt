-- ===== src/Output/Buffer/Tail.antt =====
-- The writes to a bounded buffer of backend/internal/executor/executor.go, seen as one text.
use auto_restic.Shared.{
  ℕ, ◌+◌, ◌-◌, ◌%◌, ◌≤◌, ◌<◌, ◌≡◌, refl, sym, ap, ◌∙◌, true, List, [], ◌∷◌, ◌++◌, arith, Text, ltb,
  length, drop, min, drop-zero_of_eq, drop-nil, length-append, length-drop, drop-append, drop-drop,
  append_assoc, i64_mod, append-nil,
}
use auto_restic.Output.Buffer.{
  BoundedOutputBuffer, new_bounded_output_buffer, write_string, write_all,
}

-- The last `n` bytes of a text.
abbrev pub last_bytes : ℕ → Text → Text
last_bytes n s = drop (length s - n) s

abbrev pub concat : List Text → Text
concat [] = []
concat (t ∷ ts) = t ++ concat ts

-- What a buffer holds once `s` was written to it.
pub record Holds (s : Text) (b : BoundedOutputBuffer) : Type 0 where
  pub bounded : 0 < b.limit
  pub tail_eq : b.tail ≡ last_bytes b.limit s
  pub bytes_eq : b.original_bytes ≡ length s % i64_mod
  pub truncated_eq : b.truncated ≡ ltb b.limit (length s)

pub length-last_bytes : (n : ℕ) (s : Text) → length (last_bytes n s) ≤ n
length-last_bytes n s = omega (arith, length-drop (length s - n) s)

-- Taking the end of a text that was cut before loses nothing.
last_bytes-append :
    (n : ℕ) (s t : Text) → last_bytes n (last_bytes n s ++ t) ≡ last_bytes n (s ++ t)
last_bytes-append n s t =
    let k = length s - n in
    let whole : drop k s ++ t ≡ drop k (s ++ t) = sym (drop-append k s t (omega arith)) in
    ap (last_bytes n) whole
    ∙ (drop-drop (length (drop k (s ++ t)) - n) k (s ++ t)
        ∙ ap (λ j. drop j (s ++ t)) (omega (arith, length-drop k (s ++ t), length-append {0} s t)))

-- A write that is not empty, by the bytes of the tail before it.
module _ (s t : Text) (b : BoundedOutputBuffer) (h : Holds s b) (more : 0 < length t) where
  grown : b.tail ++ t ≡ last_bytes b.limit s ++ t
  grown = ap (λ u. u ++ t) h.tail_eq

  length-grown : length (b.tail ++ t) ≡ min b.limit (length s) + length t
  length-grown =
      ap length grown
      ∙ omega
          (arith, length-append {0} (last_bytes b.limit s) t, length-drop (length s - b.limit) s)

  write-tail_eq : last_bytes b.limit (b.tail ++ t) ≡ last_bytes b.limit (s ++ t)
  write-tail_eq = ap (last_bytes b.limit) grown ∙ last_bytes-append b.limit s t

  write-bytes_eq : (b.original_bytes + length t) % i64_mod ≡ length (s ++ t) % i64_mod
  write-bytes_eq = omega (arith, h.bytes_eq, length-append {0} s t)

  -- As long as the tail fits nothing was ever cut.
  fits-tail_eq : length (b.tail ++ t) ≤ b.limit → b.tail ++ t ≡ last_bytes b.limit (s ++ t)
  fits-tail_eq fits = sym (drop-zero_of_eq _ (b.tail ++ t) (omega arith)) ∙ write-tail_eq

  fits-truncated_eq : length (b.tail ++ t) ≤ b.limit → b.truncated ≡ ltb b.limit (length (s ++ t))
  fits-truncated_eq fits = ground (arith, length-grown, h.truncated_eq, length-append {0} s t)

  cut-truncated_eq : b.limit < length (b.tail ++ t) → true ≡ ltb b.limit (length (s ++ t))
  cut-truncated_eq cut = ground (arith, length-grown, length-append {0} s t)

pub Holds-write_string :
    (s t : Text) (b : BoundedOutputBuffer) → Holds s b → Holds (s ++ t) (write_string b t)
unfolding write_string
Holds-write_string s [] b h = rw append-nil h
Holds-write_string s (c ∷ t) b h = record {
  bounded = ground (arith, h.bounded);
  tail_eq = ground (
    arith,
    h.bounded,
    fits-tail_eq s (c ∷ t) b h (omega arith),
    write-tail_eq s (c ∷ t) b h (omega arith),
  );
  bytes_eq = ground (arith, h.bounded, write-bytes_eq s (c ∷ t) b h (omega arith));
  truncated_eq = ground (
    arith,
    h.bounded,
    fits-truncated_eq s (c ∷ t) b h (omega arith),
    cut-truncated_eq s (c ∷ t) b h (omega arith),
  );
}

pub Holds-new : (limit : ℕ) → 0 < limit → Holds [] (new_bounded_output_buffer limit)
Holds-new limit h = record {
  bounded = h;
  tail_eq = sym (drop-nil (0 - limit));
  bytes_eq = refl;
  truncated_eq = ground arith;
}

Holds-write_all :
    (s : Text) (ts : List Text) (b : BoundedOutputBuffer)
    → Holds s b
    → Holds (s ++ concat ts) (write_all b ts)
unfolding write_all
Holds-write_all s [] b h = rw append-nil h
Holds-write_all s (t ∷ ts) b h =
    rw (← append_assoc)
      (Holds-write_all (s ++ t) ts (write_string b t) (Holds-write_string s t b h))

limit-write_string : (b : BoundedOutputBuffer) (t : Text) → (write_string b t).limit ≡ b.limit
unfolding write_string
limit-write_string b [] = refl
limit-write_string b (c ∷ t) = ground arith

pub limit-write_all : (b : BoundedOutputBuffer) (ts : List Text) → (write_all b ts).limit ≡ b.limit
unfolding write_all
limit-write_all b [] = refl
limit-write_all b (t ∷ ts) = limit-write_all (write_string b t) ts ∙ limit-write_string b t

-- After any writes to a new buffer of a positive limit, the tail is the last `limit` bytes of all
-- that was written, the byte count is their number (as an int64), and the buffer says that it was
-- truncated exactly when more than `limit` bytes were written.
pub write_all-Holds :
    (limit : ℕ) (ts : List Text)
    → 0 < limit
    → let b = write_all (new_bounded_output_buffer limit) ts in
      (b.tail ≡ last_bytes limit (concat ts))
      × (b.original_bytes ≡ length (concat ts) % i64_mod)
      × (b.truncated ≡ ltb limit (length (concat ts)))
write_all-Holds limit ts h =
    let b = write_all (new_bounded_output_buffer limit) ts in
    let held = Holds-write_all [] ts (new_bounded_output_buffer limit) (Holds-new limit h) in
    let same = limit-write_all (new_bounded_output_buffer limit) ts in
    (
      held.tail_eq ∙ ap (λ n. last_bytes n (concat ts)) same,
      held.bytes_eq,
      held.truncated_eq ∙ ap (λ n. ltb n (length (concat ts))) same,
    )
