-- ===== src/Task/Args/Flags.antt =====
-- Which extra flags reach the command line.
use mathlib.Core.List.{Permᴰ}
use auto_restic.Shared.{
  All-append, ◌&&◌, ◌==◌, subst, is_empty, ◌≡◌, refl, ap, ◌∙◌, inl, inr, true, false, List, [], ◌∷◌,
  Option, none, some, Text, codes, Eq-Text, lookup, All, Bool-cases,
}
use auto_restic.Exec.{err_is_not_ok, bind_ok, ok_inj, ok, Value, bool, string, number, other, Json}
use auto_restic.Task.Sort.{sort_texts, sort_texts-Permᴰ, All-sort_texts}
use auto_restic.Task.Args.{is_allowed, keys_of, flag_args, flags_loop, build_flags}

module _ (j : Json) where
  open j use {Number, format, is_two}

  -- An argument that the flags may add: an allowed flag, the short form of `--verbose` 2, or the
  -- value of a flag.
  pub data IsFlagArg (flags : List (Text × Value Number)) (arg : Text) : Type 0 where
    flag : is_allowed arg ≡ true → IsFlagArg flags arg
    verbose : arg ≡ codes "-vv" → IsFlagArg flags arg
    text : (key : Text) → lookup key flags ≡ some (string arg) → IsFlagArg flags arg
    printed :
        (key : Text) (n : Number)
        → lookup key flags ≡ some (number n)
        → arg ≡ format n
        → IsFlagArg flags arg

  flag_args_sound :
      (flags : List (Text × Value Number)) (key : Text) (v : Option (Value Number))
      (args : List Text)
      → lookup key flags ≡ v
      → is_allowed key ≡ true
      → flag_args j key v ≡ ok args
      → All (IsFlagArg flags) args
  unfolding flag_args
  flag_args_sound flags key none args found allowed e = cc
  flag_args_sound flags key (some other) args found allowed e = cc
  flag_args_sound flags key (some (bool true)) args found allowed e =
      subst (All (IsFlagArg flags)) (ok_inj e) (flag allowed, tt)
  flag_args_sound flags key (some (bool false)) args found allowed e =
      subst (All (IsFlagArg flags)) (ok_inj e) tt
  flag_args_sound flags key (some (string v)) args found allowed e =
      elim (Bool-cases (is_empty v)) [
        | inl e1 ↦ subst (All (IsFlagArg flags)) (ok_inj (rw e1 at e)) tt
        | inr e0 ↦
            subst (All (IsFlagArg flags)) (ok_inj (rw e0 at e)) (flag allowed, (text key found, tt))
      ]
  flag_args_sound flags key (some (number v)) args found allowed e =
      elim (Bool-cases (key == codes "--verbose" && is_two v)) [
        | inl e1 ↦ subst (All (IsFlagArg flags)) (ok_inj (rw e1 at e)) (verbose refl, tt)
        | inr e0 ↦
            subst (All (IsFlagArg flags)) (ok_inj (rw e0 at e))
              (flag allowed, (printed key v found refl, tt))
      ]

  flags_loop_sound :
      (flags : List (Text × Value Number)) (keys args : List Text)
      → flags_loop j flags keys ≡ ok args
      → All (λ k. is_allowed k ≡ true) keys × All (IsFlagArg flags) args
  unfolding flags_loop
  flags_loop_sound flags [] args e = (tt, subst (All (IsFlagArg flags)) (ok_inj e) tt)
  flags_loop_sound flags (key ∷ keys) args e = elim (Bool-cases (is_allowed key)) [
    | inl allowed ↦
        let (args, (own, e')) = bind_ok (flag_args j key (lookup key flags)) _ (rw allowed at e) in
        let (more, (others, e'')) = bind_ok (flags_loop j flags keys) _ e' in
        let (keys_ok, more_ok) = flags_loop_sound flags keys more others in
        let args_ok = flag_args_sound flags key _ args refl allowed own in
        (
          (allowed, keys_ok),
          subst (All (IsFlagArg flags)) (ok_inj e'')
              (All-append (IsFlagArg flags) args more args_ok more_ok),
        )
    | inr refused ↦ absurd (err_is_not_ok (rw refused at e))
  ]

  flags_loop_congr :
      (flags flags' : List (Text × Value Number)) (keys : List Text)
      → ((key : Text) → lookup key flags ≡ lookup key flags')
      → flags_loop j flags keys ≡ flags_loop j flags' keys
  unfolding flags_loop
  flags_loop_congr flags flags' [] same = refl
  flags_loop_congr flags flags' (key ∷ keys) same =
      rw (same key, flags_loop_congr flags flags' keys same)

  -- Extra flags that are accepted are all in the list of allowed flags, and put on the command line
  -- only allowed flags, `-vv`, and the texts and numbers that the flags have as their values.
  pub build_flags_whitelist :
      (flags : List (Text × Value Number)) (args : List Text)
      → build_flags j flags ≡ ok args
      → All (λ key. is_allowed key ≡ true) (keys_of flags) × All (IsFlagArg flags) args
  unfolding build_flags
  build_flags_whitelist flags args e =
      let (keys_ok, args_ok) = flags_loop_sound flags (sort_texts (keys_of flags)) args e in
      (All-sort_texts (λ key. is_allowed key ≡ true) (keys_of flags) keys_ok, args_ok)

  -- Go ranges over a map in an order of its choice. Whatever order the entries come in, the
  -- arguments are the same, and so is the error.
  pub build_flags_order :
      (flags flags' : List (Text × Value Number))
      → Permᴰ (keys_of flags) (keys_of flags')
      → ((key : Text) → lookup key flags ≡ lookup key flags')
      → build_flags j flags ≡ build_flags j flags'
  unfolding build_flags
  build_flags_order flags flags' perm same =
      ap (flags_loop j flags) (sort_texts-Permᴰ perm)
      ∙ flags_loop_congr flags flags' (sort_texts (keys_of flags')) same
