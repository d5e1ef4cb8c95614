-- ===== src/Repo/Untouched.antt =====
-- What does not touch the rows: probes, unlocking and what follows a write in
-- backend/internal/service/repo_service.go.
use auto_restic.Shared.{
  ◌&&◌, ℕ, Bool, true, false, List, ◌∷◌, Option, none, some, Eq-Text, if◌then◌else◌,
}
use auto_restic.Exec.{repository_locked, Error, err}
use auto_restic.Fallible.{◌>>=◌}
use auto_restic.Fallible.Triples.{Ends, Triple-bind, Keeps, Triple-return}
use auto_restic.Repo.{RepositoryAccessRequest}
use auto_restic.Repo.Access.{
  Command, RepositoryProbe, probe_repository_access, unlock_repository_access,
}
use auto_restic.Repo.Save.{
  started_init, queued_initial_import, CreateRepoResult, FollowUp, RepoService, SaveEnv, lift,
  return, raise_if, follow, probe_outcome, probing, unlock_result, unlocking, unlock_if_asked,
}
use auto_restic.Repo.Create.{initialised, imported, follow_up}
use auto_restic.Repo.Update.{resync}

-- a predicate that looks at the rows and the next identifier alone
abbrev pub OfRows : (RepoService → Type 0) → Type 0
OfRows P =
    (s : RepoService) (trace : List Command) (follow_ups : List FollowUp)
    → P s
    → P (record s { trace = trace; follow_ups = follow_ups })

module _ (P : RepoService → Type 0) (of_rows : OfRows P) (env : SaveEnv) where
  pub Keeps-probing : (access : RepositoryAccessRequest) → Keeps P (probing env access)
  Keeps-probing access = record {
    ends = λ s p. go s p (probe_repository_access env.outside access s.trace);
  }
    where
      go :
          (s : RepoService)
          → P s
          → (v : List Command × (RepositoryProbe × Option Error))
          → Ends (λ a s. P s) P (probe_outcome s v)
      go s p (trace, (probe, none)) = of_rows s trace s.follow_ups p
      go s p (trace, (probe, some e)) = of_rows s trace s.follow_ups p

  Keeps-unlocking : (access : RepositoryAccessRequest) → Keeps P (unlocking env access)
  Keeps-unlocking access = record {
    ends = λ s p. go s p (unlock_repository_access env.outside access s.trace);
  }
    where
      go :
          (s : RepoService)
          → P s
          → (v : List Command × (ℕ × Option Error)) → Ends (λ a s. P s) P (unlock_result s v)
      go s p (trace, (log_id, none)) = of_rows s trace s.follow_ups p
      go s p (trace, (log_id, some e)) = of_rows s trace s.follow_ups p

  pub Keeps-unlock_if_asked :
      (access : RepositoryAccessRequest) (auto_unlock : Bool) (probe : RepositoryProbe)
      → Keeps P (unlock_if_asked env access auto_unlock probe)
  unfolding unlock_if_asked
  Keeps-unlock_if_asked access auto_unlock probe =
      go (probe.exists && probe.accessible && probe.locked && auto_unlock)
    where
      judged :
          (log_id : ℕ) (again : RepositoryProbe) (b : Bool)
          → Keeps {A = ℕ × RepositoryProbe} P
              (if b then lift (err repository_locked) else return (log_id, again))
      judged log_id again true = record { ends = λ s p. p }
      judged log_id again false = record { ends = λ s p. p }

      go :
          (b : Bool)
          → Keeps {A = ℕ × RepositoryProbe} P (
              if b
              then (unlocking env access >>= λ log_id. probing env access >>= λ again.
                  if again.locked then lift (err repository_locked) else return (log_id, again))
              else return (0, probe))
      go true =
          Triple-bind (Keeps-unlocking access) (λ log_id.
            Triple-bind (Keeps-probing access) (λ again. judged log_id again again.locked))
      go false = record { ends = λ s p. p }

  Keeps-follow : (f : FollowUp) → Keeps P (follow f)
  Keeps-follow f = record { ends = λ s p. of_rows s s.trace (f ∷ s.follow_ups) p }

  pub Keeps-raise_if : (e : Option Error) → Keeps P (raise_if e)
  Keeps-raise_if none = record { ends = λ s p. p }
  Keeps-raise_if (some e) = record { ends = λ s p. p }

  pub Keeps-follow_up :
      (init_on_create : Bool) (probe : RepositoryProbe) (result : CreateRepoResult)
      → Keeps P (follow_up env init_on_create probe result)
  unfolding follow_up
  Keeps-follow_up init_on_create probe result = go (probe.exists && probe.accessible) init_on_create
    where
      go :
          (b c : Bool)
          → Keeps {A = CreateRepoResult × Option Error} P (
              if b
              then (follow (queued_initial_import result.id) >>= λ done.
                  return (imported result env.initial_import))
              else if c
              then (follow (started_init result.id) >>= λ done.
                  return (initialised result env.init, none))
              else return (result, none))
      go true c = record {
        ends = λ s p. of_rows s s.trace (queued_initial_import result.id ∷ s.follow_ups) p;
      }
      go false true = record {
        ends = λ s p. of_rows s s.trace (started_init result.id ∷ s.follow_ups) p;
      }
      go false false = record { ends = λ s p. p }

  pub Keeps-resync : (id : ℕ) (wanted : Bool) → Keeps P (resync env id wanted)
  unfolding resync
  Keeps-resync id false = Triple-return (λ s p. p)
  Keeps-resync id true = Triple-bind (Keeps-follow _) (λ asked.
      Triple-bind (Keeps-raise_if env.reset_error)
        (λ reset. Keeps-follow (queued_initial_import id)))
