-- ===== src/Cache/Refresh.antt =====
-- What a synchronisation of the snapshots leaves behind: runCoreSync of
-- backend/internal/service/repo_cache_service.go.
use auto_restic.Cache.Steps.{keep_note, Triple-noting, Keeps-core_command, next_generation_lem}
use auto_restic.Shared.{
  Eq-ℕ, codes, ℕ, ◌+◌, ◌≡◌, ◌⊎◌, sym, subst, false, List, [], ◌∷◌, none, some, Text, inl,
}
use auto_restic.Cache.State.{running, SnapshotRow, Db, Env}
use auto_restic.Cache.Rows.{is_no_such_table}
use auto_restic.Cache.Core.{sync_snapshots, core_sync_of, run_core_sync}
use auto_restic.Cache.Triples.{
  Triple-given, Triple-on_error, Triple-bind, Triple-keep, Triple, Ends,
}
use auto_restic.Cache.Serving.{
  Serves, Refreshed, Unfinished, Serves-counted, Serves-put_state, Keeps-store_restic_config,
  Keeps-replace_snapshots, finalize_lem,
}
use auto_restic.Cache.Finish.{finish_core_lem}

module _ (env : Env)
    (exists : (n : ℕ) (message : Text)
      → env.fault n ≡ some message
      → is_no_such_table message ≡ false)
    (g : ℕ) (rows : List SnapshotRow) where
  core_sync_of_lem :
      Triple
        (Serves g rows)
        (core_sync_of env (g + 1))
        (λ a db. Refreshed (g + 1) db)
        (λ db. Serves g rows db ⊎ Unfinished env g db)
  unfolding core_sync_of sync_snapshots
  core_sync_of_lem =
      Triple-keep
        (keep_note env (Serves g rows) (Serves-counted env g rows) (Serves-put_state env g rows)
          running (codes "config") 10 none [] none)
        (λ db h. inl h)
        (λ begun.
          Triple-keep
            (Keeps-core_command env (Serves-counted env g rows) (Serves-put_state env g rows)
              (codes "config") 25 (codes "cat" ∷ codes "config" ∷ []))
            (λ db h. inl h)
            (λ config.
              Triple-keep
                (Triple-noting env (Serves-counted env g rows) (Serves-put_state env g rows)
                  (codes "config") 25 config.1 ((Keeps-store_restic_config env g rows) config.0))
                (λ db h. inl h)
                (λ stored.
                  Triple-keep
                    (keep_note env (Serves g rows) (Serves-counted env g rows)
                      (Serves-put_state env g rows) running (codes "snapshots") 50 none []
                      (some config.1))
                    (λ db h. inl h)
                    (λ listing.
                      Triple-keep
                        (Keeps-core_command env (Serves-counted env g rows)
                          (Serves-put_state env g rows) (codes "snapshots") 75
                          (codes "snapshots" ∷ codes "--json" ∷ []))
                        (λ db h. inl h)
                        (λ snapshots.
                          Triple-keep
                            (Triple-noting env (Serves-counted env g rows)
                              (Serves-put_state env g rows) (codes "snapshots") 75 snapshots.1
                              ((Keeps-replace_snapshots env g rows) snapshots.0))
                            (λ db h. inl h)
                            (λ replaced.
                              Triple-bind
                                (Triple-on_error
                                  (Triple-noting env (Serves-counted env g rows)
                                    (Serves-put_state env g rows) (codes "snapshots") 90 snapshots.1
                                    (finalize_lem env g rows))
                                  (λ db h. inl h))
                                (λ finalized. (finish_core_lem env g rows) snapshots.1)))))))

  -- A synchronisation of a repository's snapshots that succeeds leaves one generation of them, the
  -- next, which is the current one. One that fails leaves what is served as it was, its generation
  -- and its rows; unless its last statement was the one that makes the new generation current, behind
  -- the transaction that removed the old rows, and that statement failed: then the old generation
  -- is current, and only rows of the new one are left.
  pub run_core_sync_atomic :
      (db : Db)
      → Serves g rows db
      → Ends
          (λ a db'. Refreshed (g + 1) db')
          (λ db'. Serves g rows db' ⊎ Unfinished env g db')
          (run_core_sync env db)
  unfolding run_core_sync
  run_core_sync_atomic db s = steps.ends db s
    where
      E : Db → Type 0
      E db' = Serves g rows db' ⊎ Unfinished env g db'

      steps : Triple (Serves g rows) (run_core_sync env) (λ a db'. Refreshed (g + 1) db') E
      steps =
          Triple-bind
            (Triple-on_error
              (next_generation_lem env exists g (Serves-counted env g rows) (λ db s. s.current))
              (λ db h. inl h))
            (λ generation. Triple-given (λ eq.
              subst
                (λ n.
                  Triple (Serves g rows) (core_sync_of env n) (λ a db'. Refreshed (g + 1) db') E)
                (sym eq) core_sync_of_lem))
