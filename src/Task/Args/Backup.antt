-- ===== src/Task/Args/Backup.antt =====
-- What a command line that buildBackupArgs accepts consists of.
use auto_restic.Shared.{
  subst, sym, ap, ◌∙◌, length, ◌<◌, Option-cases, ◌≡◌, refl, true, List, [], ◌∷◌, ◌++◌, some, Text,
  codes, Eq-Text, arith, Bool-cases, inl, inr, append_assoc, text_eq_iff,
}
use auto_restic.Exec.{ok, bind_ok, err_is_not_ok, Json, ok_inj}
use auto_restic.Task.Args.{
  BackupTask, build_backup_args, build_extra_flag_args, contains_arg, json_flag, json_args,
  repeated, unmarshal_strings, require_some,
}

contains_arg-append_left :
    (xs ys : List Text) (want : Text)
    → contains_arg xs want ≡ true
    → contains_arg (xs ++ ys) want ≡ true
unfolding contains_arg
contains_arg-append_left [] ys want h = cc
contains_arg-append_left (x ∷ xs) ys want h = ground (arith, contains_arg-append_left xs ys want)

contains_arg-append_right :
    (xs ys : List Text) (want : Text)
    → contains_arg ys want ≡ true
    → contains_arg (xs ++ ys) want ≡ true
unfolding contains_arg
contains_arg-append_right [] ys want h = h
contains_arg-append_right (x ∷ xs) ys want h = ground (arith, contains_arg-append_right xs ys want)

contains_arg-singleton : (want : Text) → contains_arg (want ∷ []) want ≡ true
unfolding contains_arg
contains_arg-singleton want = rw ((text_eq_iff want want).1 refl)

-- `--json` is added behind what stands there.
json_args-backup :
    (first : Text) (args : List Text)
    → (more : List Text) × ((json_args (first ∷ args) ≡ first ∷ more)
        × (contains_arg (json_args (first ∷ args)) json_flag ≡ true))
unfolding json_args
json_args-backup first args = elim (Bool-cases (contains_arg (first ∷ args) json_flag)) [
  | inl e ↦ (args, (rw e refl, rw (e, e) refl))
  | inr e ↦ (
    args ++ json_flag ∷ [],
    (
      rw e refl,
      rw e (
          contains_arg-append_right (first ∷ args) (json_flag ∷ []) json_flag
            (contains_arg-singleton json_flag)),
    ),
  )
]

regroup :
    {args more : List Text} {first : Text} (eq : args ≡ first ∷ more) (xs ys zs : List Text)
    → args ++ (xs ++ (ys ++ zs)) ≡ first ∷ (more ++ (xs ++ ys)) ++ zs
regroup {more = more} eq xs ys zs = rw (eq, append_assoc more, append_assoc xs) refl

module _ (j : Json) where
  open j use {strings}

  unmarshal_strings_ok :
      (what raw : Text) (items : List Text)
      → unmarshal_strings j what raw ≡ ok items
      → strings raw ≡ some items
  unfolding unmarshal_strings
  unmarshal_strings_ok what raw items e = elim (Option-cases (strings raw)) [
    | inl e' ↦ absurd (err_is_not_ok (rw (e', unmarshal_strings) at e))
    | inr (found, e') ↦ e' ∙ ap some (ok_inj (rw (e', unmarshal_strings) at e))
  ]

  require_some_ok :
      (items checked : List Text)
      → require_some items ≡ ok checked
      → (checked ≡ items) × (0 < length items)
  require_some_ok [] checked e = absurd (err_is_not_ok e)
  require_some_ok (item ∷ items) checked e = (sym (ok_inj e), omega arith)

  -- A command line that is accepted is `backup`, then options, then the task's source paths as they
  -- were decoded, at least one of them; `--json` is among its arguments.
  pub build_backup_args_shape :
      (task : BackupTask) (args : List Text)
      → build_backup_args j task ≡ ok args
      → (options : List Text) × ((sources : List Text) × ((strings task.source_paths ≡ some sources)
            × ((0 < length sources)
                × ((args ≡ codes "backup" ∷ options ++ sources)
                    × (contains_arg args json_flag ≡ true)))))
  unfolding build_backup_args
  build_backup_args_shape task args e =
      let (sources, (decoded, e1)) =
        bind_ok (unmarshal_strings j (codes "source paths") task.source_paths) _ e in
      let (checked, (accepted, e2)) = bind_ok (require_some sources) _ e1 in
      let (excludes, (_, e3)) =
        bind_ok (unmarshal_strings j (codes "excludes") task.excludes) _ e2 in
      let (tags, (_, e4)) = bind_ok (unmarshal_strings j (codes "tags") task.tags) _ e3 in
      let (extra, (_, e5)) = bind_ok (build_extra_flag_args j task.extra_flags) _ e4 in
      let (more, (starts, contains)) = json_args-backup (codes "backup") extra in
      let (same, some_source) = require_some_ok sources checked accepted in
      let ex = repeated (codes "--exclude") excludes in
      let tg = repeated (codes "--tag") tags in
      (
        more ++ (ex ++ tg),
        (
          checked,
          (
            unmarshal_strings_ok (codes "source paths") task.source_paths sources decoded
                ∙ ap some (sym same),
            (
              subst (λ l. 0 < length l) (sym same) some_source,
              (
                sym (ok_inj e5) ∙ regroup starts ex tg checked,
                subst (λ l. contains_arg l json_flag ≡ true) (ok_inj e5)
                    (contains_arg-append_left (json_args (codes "backup" ∷ extra))
                      (ex ++ (tg ++ checked)) json_flag contains),
              ),
            ),
          ),
        ),
      )
