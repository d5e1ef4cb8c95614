-- ===== src/Cache/Stuck.antt =====
-- A synchronisation that finds a config row of the generation it is to make.
use auto_restic.Shared.{
  ◌∙◌, ℕ, ◌+◌, ◌≡◌, sym, subst, Bool, true, false, [], ◌∷◌, Option, none, some, Text, codes, Eq-ℕ,
  lookup, is_some, if◌then◌else◌,
}
use auto_restic.Exec.{err, parse_error}
use auto_restic.Cache.State.{same_domain, core, running, SyncState, Db, Env}
use auto_restic.Cache.Rows.{counted, put_state, generation_of, is_no_such_table, at_fault}
use auto_restic.Cache.Snapshots.{store_restic_config, insert_config}
use auto_restic.Cache.Core.{sync_snapshots, run_core_sync, core_sync_of}
use auto_restic.Cache.Triples.{Triple-never, Triple-given, Triple-bind, Triple, Ends}
use auto_restic.Cache.Steps.{
  generation_of-upsert_zero, keep_note, Triple-noting, Keeps-core_command, next_generation_lem,
}

-- The current generation is `g`, and the config of generation `g + 1` is stored already.
pub record Taken (g : ℕ) (db : Db) : Type 0 where
  pub current : generation_of (db.sync_states core) ≡ g
  pub taken : is_some (lookup (g + 1) db.restic_config) ≡ true

module _ (env : Env)
    (exists : (n : ℕ) (message : Text)
      → env.fault n ≡ some message
      → is_no_such_table message ≡ false)
    (g : ℕ) where
  Taken-counted : (db : Db) → Taken g db → Taken g (counted db)
  Taken-counted db t = record { current = t.current; taken = t.taken }

  Taken-put_state :
      (new : SyncState) (db : Db)
      → new.generation ≡ 0
      → Taken g db
      → Taken g (put_state core new db)
  unfolding put_state same_domain
  Taken-put_state new db given t = record {
    current = generation_of-upsert_zero new (db.sync_states core) given ∙ t.current;
    taken = t.taken;
  }

  store_refused :
      (payload : Text)
      → Triple (Taken g) (store_restic_config env (g + 1) payload) (λ a db. ⊥) (Taken g)
  unfolding store_restic_config insert_config
  store_refused payload = record {
    ends = λ db t.
        go db t (env.is_object payload) (env.fault db.executed) (lookup (g + 1) db.restic_config)
          t.taken;
  }
    where
      inserted :
          (db : Db)
          → Taken g db
          → (taken : Option Text) → is_some taken ≡ true
          → Ends (λ a db. ⊥) (Taken g) (insert_config env (g + 1) payload taken (counted db))
      inserted db t (some old) h = Taken-counted db t
      inserted db t none h = cc

      go :
          (db : Db)
          → Taken g db
          → (object : Bool) (v : Option Text) (taken : Option Text) → is_some taken ≡ true
          → Ends
              (λ a db. ⊥)
              (Taken g)
              (if object
                then at_fault v (counted db) (insert_config env (g + 1) payload taken (counted db))
                else (db, err (parse_error (codes "config"))))
      go db t false v taken h = t
      go db t true (some message) taken h = Taken-counted db t
      go db t true none taken h = inserted db t taken h

  core_sync_of_refused : Triple (Taken g) (core_sync_of env (g + 1)) (λ a db. ⊥) (Taken g)
  unfolding core_sync_of
  core_sync_of_refused =
      Triple-bind
        (keep_note env (Taken g) Taken-counted Taken-put_state running (codes "config") 10 none []
          none)
        (λ begun.
          Triple-bind
            (Keeps-core_command env Taken-counted Taken-put_state (codes "config") 25
              (codes "cat" ∷ codes "config" ∷ []))
            (λ config.
              Triple-bind {Q = λ a db. ⊥} {f = λ stored. sync_snapshots env (g + 1) config.1}
                (Triple-noting env Taken-counted Taken-put_state (codes "config") 25 config.1
                  (store_refused config.0))
                (λ stored. Triple-never)))

  -- Once the config of the next generation is stored and that generation is not current, no
  -- synchronisation of the snapshots succeeds, whatever restic reports, and none changes this: each
  -- ends in an error, in the same situation.
  pub run_core_sync_stuck :
      (db : Db) → Taken g db → Ends (λ a db'. ⊥) (Taken g) (run_core_sync env db)
  unfolding run_core_sync
  run_core_sync_stuck db t = steps.ends db t
    where
      steps : Triple (Taken g) (run_core_sync env) (λ a db'. ⊥) (Taken g)
      steps =
          Triple-bind (next_generation_lem env exists g Taken-counted (λ db t. t.current))
            (λ generation. Triple-given (λ eq.
              subst (λ n. Triple (Taken g) (core_sync_of env n) (λ a db'. ⊥) (Taken g)) (sym eq)
                core_sync_of_refused))
