-- ===== src/Cache/Steps.antt =====
-- The steps of a synchronisation, with the statements that note their progress:
-- backend/internal/service/repo_cache_service.go.
use auto_restic.Shared.{
  ℕ, suc, zero, ◌+◌, ◌≡◌, refl, ap, Bool, true, false, List, [], Option, none, some, Text, arith,
  nat_eq_iff, if◌then◌else◌,
}
use auto_restic.Cache.Rows.{
  at_fault, tolerated, query, or_missing, upsert_state, set_sync_state, counted, is_no_such_table,
  put_state, generation_of, next_generation, current_generation, get_sync_state,
}
use auto_restic.Cache.Core.{run_sync_command, note_failed, noting, note_log, core_command}
use auto_restic.Cache.Triples.{
  Triple-throw, Triple-keep, Triple-attempt, Keeps-ignore, Triple-return, Triple-pre, Triple-bind,
  Keeps-exec, Triple, Ends, Keeps,
}
use auto_restic.Exec.{Result, ok, err}
use auto_restic.Cache.State.{
  throw, asks, as_value, core, Status, failed, running, SyncState, Db, M, attempt, return, Env,
}

abbrev pub status_of : Option SyncState → Option Status
status_of none = none
status_of (some state) = some state.status

true_is_not_false : ¬ true ≡ false
true_is_not_false h = cc

-- An upsert without a generation keeps the one that was there.
pub generation_of-upsert_zero :
    (new : SyncState) (old : Option SyncState)
    → new.generation ≡ 0
    → generation_of (some (upsert_state new old)) ≡ generation_of old
unfolding upsert_state
generation_of-upsert_zero new none zero_given = zero_given
generation_of-upsert_zero new (some old) zero_given = rw zero_given refl

pub upsert_status :
    (new : SyncState) (old : Option SyncState)
    → status_of (some (upsert_state new old)) ≡ some new.status
unfolding upsert_state
upsert_status new none = refl
upsert_status new (some old) = refl

pub generation_of-upsert_suc :
    (new : SyncState) (old : Option SyncState) (g : ℕ)
    → new.generation ≡ g + 1
    → generation_of (some (upsert_state new old)) ≡ g + 1
unfolding upsert_state
generation_of-upsert_suc new none g given = given
generation_of-upsert_suc new (some old) g given = ground (arith, nat_eq_iff (g + 1) 0)

module _ (env : Env) where
  pub keep_note :
      (P : Db → Type 0)
      → ((db : Db) → P db → P (counted db))
      → ((new : SyncState) (db : Db) → new.generation ≡ 0 → P db → P (put_state core new db))
      → (status : Status) (phase : Text) (progress : ℕ) (last_success_at : Option ℕ)
        (last_error : Text) (log_id : Option ℕ)
      → Keeps P (set_sync_state env core status phase progress 0 last_success_at last_error log_id)
  unfolding set_sync_state
  keep_note P count put status phase progress last_success_at last_error log_id = record {
    ends = λ db p. (Keeps-exec env count (put_state core _) (λ db p. put _ db refl p)).ends db p;
  }

  Triple-note_failed :
      {A : Type 0} {E : Db → Type 0} {Q : A → Db → Type 0}
      → ((db : Db) → E db → E (counted db))
      → ((new : SyncState) (db : Db) → new.generation ≡ 0 → E db → E (put_state core new db))
      → (phase : Text) (progress log_id : ℕ) (r : Result A)
      → Triple (λ db. Ends Q E (db, r)) (note_failed env phase progress log_id r) Q E
  unfolding note_failed
  Triple-note_failed count put phase progress log_id (ok a) = Triple-return (λ db h. h)
  Triple-note_failed {E = E} count put phase progress log_id (err e) =
      Triple-keep
        (Keeps-ignore
          (keep_note E count put failed phase progress none (env.error_text e) (some log_id)))
        (λ db h. h) (λ a. Triple-throw {e = e} (λ db h. h))

  -- a step of a synchronisation, with the failure noted
  pub Triple-noting :
      {A : Type 0} {P E : Db → Type 0} {Q : A → Db → Type 0} {step : M A}
      → ((db : Db) → E db → E (counted db))
      → ((new : SyncState) (db : Db) → new.generation ≡ 0 → E db → E (put_state core new db))
      → (phase : Text) (progress log_id : ℕ) → Triple P step Q E
      → Triple P (noting env phase progress log_id step) Q E
  unfolding noting
  Triple-noting count put phase progress log_id t =
      Triple-bind (Triple-attempt t) (λ r. Triple-note_failed count put phase progress log_id r)

module _ (env : Env) {P : Db → Type 0} (count : (db : Db) → P db → P (counted db))
    (put : (new : SyncState) (db : Db)
      → new.generation ≡ 0
      → P db
      → P (put_state core new db)) where
  Keeps-note_log :
      (phase : Text) (progress log_id : ℕ) → Keeps (P) (note_log env phase progress log_id)
  unfolding note_log
  Keeps-note_log phase progress zero = Triple-return (λ db h. h)
  Keeps-note_log phase progress (suc n) =
      Keeps-ignore (keep_note env P count put running phase progress none [] (some (suc n)))

  pub Keeps-core_command :
      (phase : Text) (progress : ℕ) (args : List Text)
      → Keeps (P) (core_command env phase progress args)
  unfolding core_command
  Keeps-core_command phase progress args =
      Triple-bind {Q = λ reply db. P db} {m = asks (run_sync_command env args)}
        (record { ends = λ db h. h })
        (λ reply.
          Triple-bind {Q = λ noted db. P db} (Keeps-note_log phase progress reply.1) (λ noted.
            Triple-bind {Q = λ payload db. P db} (fail_kept reply.0 reply.1)
              (λ payload. Triple-return {a = (payload, reply.1)} (λ db h. h))))
    where
      either : (r : Result Text) (db : Db) → P db → Ends {A = Text} (λ a db. P db) (P) (db, r)
      either (ok a) db h = h
      either (err e) db h = h

      fail_kept :
          (r : Result Text) (log_id : ℕ) → Keeps (P) (note_failed env phase progress log_id r)
      fail_kept r log_id =
          Triple-pre (either r) (Triple-note_failed env count put phase progress log_id r)

module _ (env : Env)
    (exists : (n : ℕ) (message : Text)
      → env.fault n ≡ some message
      → is_no_such_table message ≡ false)
    (g : ℕ) {P : Db → Type 0} (count : (db : Db) → P db → P (counted db))
    (current : (db : Db) → P db → generation_of (db.sync_states core) ≡ g) where
  -- what a read of the sync state gives, errors included
  abbrev Read : Result (Option SyncState) → Db → Type 0
  Read (ok state) db = (generation_of state ≡ g) × P db
  Read (err e) db = (tolerated e ≡ false) × P db

  get_sync_state_lem : Triple (P) (attempt (get_sync_state env core)) Read (P)
  unfolding get_sync_state query tolerated is_no_such_table
  get_sync_state_lem = record { ends = λ db s. go db s (env.fault db.executed) refl }
    where
      go :
          (db : Db)
          → P db
          → (v : Option Text) → env.fault db.executed ≡ v
          → Ends Read
              (P)
              (as_value (at_fault v (counted db) (counted db, ok (db.sync_states core))))
      go db s none e = (current db s, count db s)
      go db s (some message) e = (exists db.executed message e, count db s)

  pass_state :
      (found : Result (Option SyncState))
      → Triple
          (Read found)
          (or_missing none found)
          (λ state db. (generation_of state ≡ g) × P db)
          (P)
  pass_state (ok state) = Triple-return (λ db h. h)
  pass_state (err e) = record { ends = λ db h. go db h.1 (tolerated e) h.0 }
    where
      go :
          (db : Db)
          → P db
          → (missing : Bool) → missing ≡ false
          → Ends
              (λ state db. (generation_of state ≡ g) × P db)
              (P)
              ((if missing then return none else throw e) db)
      go db s true h = absurd (true_is_not_false h)
      go db s false h = s

  pub next_generation_lem : Triple (P) (next_generation env core) (λ a db. (a ≡ g + 1) × P db) (P)
  unfolding next_generation current_generation
  next_generation_lem =
      Triple-bind {Q = λ current db. (current ≡ g) × P db}
        (Triple-bind {Q = Read} get_sync_state_lem (λ found.
          Triple-bind (pass_state found)
            (λ state. Triple-return {a = generation_of state} (λ db h. h))))
        (λ current. Triple-return {a = current + 1} (λ db h. (ap (λ n. n + 1) h.0, h.1)))
