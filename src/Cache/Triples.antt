-- ===== src/Cache/Triples.antt =====
-- Statements on the rows of the cache, by what holds before and after them.
use auto_restic.Shared.{if◌then◌else◌, ℕ, Bool, true, false, Option, none, some, Text}
use auto_restic.Exec.{Result, ok, err}
pub use auto_restic.Fallible.Triples.{
  Ends, Triple, Triple-bind, Keeps, Keeps-attempt, Keeps-ignore, Triple-attempt, Triple-on_error,
  Triple-return, Triple-throw, Triple-keep, Triple-pre, Triple-given, Triple-ignore, Triple-never,
}
use auto_restic.Cache.State.{Status, SyncState, Domain, Db, return, throw, Env}
use auto_restic.Cache.Rows.{
  put_state, set_sync_state, at_fault, counted, exec, query, or_missing, tolerated,
}

-- Statements keep what they do not touch.
module _ (env : Env) {P : Db → Type 0} (count : (db : Db) → P db → P (counted db)) where
  pub Keeps-exec :
      (change : Db → Db) → ((db : Db) → P db → P (change db)) → Keeps P (exec env change)
  unfolding exec
  Keeps-exec change keep = record { ends = λ db p. go db p (env.fault db.executed) }
    where
      go :
          (db : Db)
          → P db
          → (v : Option Text)
          → Ends
              (λ a db. P db)
              P
              (at_fault {A = Bool} v (counted db) (change (counted db), ok true))
      go db p none = keep (counted db) (count db p)
      go db p (some message) = count db p

  pub Keeps-query : {A : Type 0} (read : Db → A) → Keeps P (query env read)
  unfolding query
  Keeps-query {A} read = record { ends = λ db p. go db p (env.fault db.executed) }
    where
      go :
          (db : Db)
          → P db
          → (v : Option Text)
          → Ends (λ a db. P db) P (at_fault {A = A} v (counted db) (counted db, ok (read db)))
      go db p none = count db p
      go db p (some message) = count db p

pub Keeps-or_missing :
    {A : Type 0} {P : Db → Type 0} (missing : A) (found : Result A)
    → Keeps P (or_missing missing found)
Keeps-or_missing missing (ok a) = Triple-return (λ db p. p)
Keeps-or_missing {A} {P} missing (err e) = record { ends = λ db p. go db p (tolerated e) }
  where
    go :
        (db : Db)
        → P db
        → (b : Bool) → Ends {A = A} (λ a db. P db) P ((if b then return missing else throw e) db)
    go db p true = p
    go db p false = p

module _ (env : Env) {P : Db → Type 0} (count : (db : Db) → P db → P (counted db)) where
  pub Keeps-set_sync_state :
      (domain : Domain)
      → ((new : SyncState) (db : Db) → P db → P (put_state domain new db))
      → (status : Status) (phase : Text) (progress generation : ℕ) (last_success_at : Option ℕ)
        (last_error : Text) (log_id : Option ℕ)
      → Keeps P (
          set_sync_state env domain status phase progress generation last_success_at last_error
            log_id)
  unfolding set_sync_state
  Keeps-set_sync_state domain put status phase progress generation last_success_at last_error
        log_id =
      record { ends = λ db p. (Keeps-exec env count (put_state domain _) (put _)).ends db p }
