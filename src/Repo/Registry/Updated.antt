-- ===== src/Repo/Registry/Updated.antt =====
-- The invariant of the repositories at Update and Delete of
-- backend/internal/service/repo_service.go.
use auto_restic.Shared.{
  nat_eq_iff, ◌≡◌, ◌<◌, inl, inr, refl, subst, ℕ, nat_eq, Bool, true, false, List, [], ◌∷◌, Option,
  none, some, Text, Eq-Text, All, Bool-cases, if◌then◌else◌, arith,
}
use auto_restic.Exec.{Error, Result, ok, err}
use auto_restic.Fallible.Triples.{Ends, Triple, Triple-bind, Keeps, Triple-on_error}
use auto_restic.Repo.Cipher.{Gcm}
use auto_restic.Repo.{Repository, UpdateRepoRequest}
use auto_restic.Repo.Save.{
  index_violated, write_error_of, RepoService, SaveEnv, lift, continue_with, raise_if,
  violates_index, written, find_row, write_over, update_row, get_row, found_row,
}
use auto_restic.Repo.Change.{change_keeps, change, needs_resync}
use auto_restic.Repo.Update.{without, delete, update}
use auto_restic.Repo.Apart.{
  without-All, any_clash-false, write_over-AllApart, find_row-SameType, BesideUpdate-of_free,
  without-AllApart,
}
use auto_restic.Repo.Untouched.{Keeps-resync}
use auto_restic.Repo.Registry.{IsRegistry, IsRegistry-of_rows, IsFree, ensure_lem}

module _ (equal_fold : Text → Text → Bool)
    (symmetric : (s t : Text) → equal_fold s t ≡ equal_fold t s) (gcm : Gcm) (key : Text) where
  pub delete-IsRegistry : (env : SaveEnv) (id : ℕ) → Keeps (IsRegistry equal_fold) (delete env id)
  unfolding delete
  delete-IsRegistry env id = record { ends = λ s h. go env.write_error s h }
    where
      go :
          (e : Option Error) (s : RepoService)
          → IsRegistry equal_fold s
          → Ends
              (λ a s. IsRegistry equal_fold s)
              (IsRegistry equal_fold)
              (continue_with
                (λ done s. (record s { rows = without id s.rows }, ok true))
                (raise_if e s))
      go (some e) s h = h
      go none s h = record {
        apart = without-AllApart equal_fold symmetric id s.rows h.apart;
        known = without-All equal_fold symmetric _ id s.rows h.known;
        positive = h.positive;
      }

  write_over-known :
      (new : Repository) (next_id : ℕ) (rs : List Repository)
      → All (λ r. (0 < r.id) × (r.id < next_id)) rs
      → All (λ r. (0 < r.id) × (r.id < next_id)) (write_over new rs)
  write_over-known new next_id [] h = tt
  write_over-known new next_id (r ∷ rs) h = elim (Bool-cases (nat_eq r.id new.id)) [
    | inl here ↦ rw here (
      ((
        omega (arith, (nat_eq_iff r.id new.id).0 here),
        omega (arith, (nat_eq_iff r.id new.id).0 here),
      )),
      write_over-known new next_id rs h.1,
    )
    | inr other ↦ rw other (h.0, write_over-known new next_id rs h.1)
  ]

  real_id :
      (rs : List Repository) (found : Repository) (id next_id : ℕ)
      → All (λ r. (0 < r.id) × (r.id < next_id)) rs
      → find_row id rs ≡ some found
      → 0 < found.id
  unfolding find_row
  real_id [] found id next_id h e = cc
  real_id (r ∷ rs) found id next_id h e = elim (Bool-cases (nat_eq r.id id)) [
    | inl here ↦
        let same : r ≡ found = cc (rw here at e) in subst (λ (x : Repository). 0 < x.id) same h.0.0
    | inr other ↦ real_id rs found id next_id h.1 (rw other at e)
  ]

  pub kept :
      {A : Type 0} (v : RepoService × Result A)
      → Ends (λ a s. IsRegistry equal_fold s) (IsRegistry equal_fold) v
      → IsRegistry equal_fold v.0
  kept (s, ok a) h = h
  kept (s, err e) h = h

  -- what an update has found and makes of it
  record IsChange (id : ℕ) (new : Repository) (s : RepoService) : Type 0 where
    registry : IsRegistry equal_fold s
    found : Repository
    found_eq : find_row id s.rows ≡ some found
    same_id : new.id ≡ found.id
    same_type : new.type ≡ found.type

  get_lem :
      (env : SaveEnv) (id : ℕ)
      → Triple
          (IsRegistry equal_fold)
          (get_row env id)
          (λ repo s. (find_row id s.rows ≡ some repo) × IsRegistry equal_fold s)
          (IsRegistry equal_fold)
  unfolding get_row
  get_lem env id = record { ends = λ s h. go env.get_error s h }
    where
      Q : Repository → RepoService → Type 0
      Q repo s = (find_row id s.rows ≡ some repo) × IsRegistry equal_fold s

      found :
          (s : RepoService) (v : Option Repository)
          → find_row id s.rows ≡ v
          → IsRegistry equal_fold s
          → Ends Q (IsRegistry equal_fold) (s, found_row v)
      found s none e h = h
      found s (some repo) e h = (e, h)

      go :
          (e : Option Error) (s : RepoService)
          → IsRegistry equal_fold s
          → Ends Q
              (IsRegistry equal_fold)
              (continue_with (λ read s. (s, found_row (find_row id s.rows))) (raise_if e s))
      go (some e) s h = h
      go none s h = found s (find_row id s.rows) refl h

  change_lem :
      (env : SaveEnv) (r : UpdateRepoRequest) (id : ℕ) (repo : Repository)
      → Triple
          (λ s. (find_row id s.rows ≡ some repo) × IsRegistry equal_fold s)
          (lift (change gcm key env.nonces r repo))
          (λ new s. IsChange id new s)
          (IsRegistry equal_fold)
  change_lem env r id repo = record { ends = λ s h. go s h (change gcm key env.nonces r repo) refl }
    where
      go :
          (s : RepoService)
          → (find_row id s.rows ≡ some repo) × IsRegistry equal_fold s
          → (v : Result Repository) → change gcm key env.nonces r repo ≡ v
          → Ends (λ new s. IsChange id new s) (IsRegistry equal_fold) (lift v s)
      go s h (err e) eq = h.1
      go s h (ok new) eq =
          let (same_id, same_type) = change_keeps gcm key env.nonces r repo new eq in
          record {
            registry = h.1;
            found = repo;
            found_eq = h.0;
            same_id = same_id;
            same_type = same_type;
          }

  -- what the write of an update relies on
  CanUpdate : ℕ → Repository → RepoService → Type 0
  CanUpdate id new s = IsChange id new s × IsFree equal_fold new.name new.type new.endpoint new.id s

  update_row_lem :
      (env : SaveEnv) (id : ℕ) (new : Repository)
      → Triple
          (CanUpdate id new)
          (update_row env new)
          (λ done s. IsRegistry equal_fold s)
          (IsRegistry equal_fold)
  unfolding update_row CanUpdate
  update_row_lem env id new = record { ends = λ s h. go env.write_error s h }
    where
      overwritten :
          (s : RepoService) (b : Bool)
          → CanUpdate id new s
          → Ends {A = Bool}
              (λ done s. IsRegistry equal_fold s)
              (IsRegistry equal_fold)
              (if b
                then (s, err (write_error_of index_violated))
                else (record s { rows = write_over new s.rows }, ok true))
      overwritten s true h = h.0.registry
      overwritten s false h =
          let g = h.0.registry in
          let (found_id, types) =
            find_row-SameType equal_fold symmetric id s.rows h.0.found g.apart h.0.found_eq in
          let real = real_id s.rows h.0.found id s.next_id g.known h.0.found_eq in
          record {
            apart = write_over-AllApart equal_fold symmetric new s.rows g.apart (
                BesideUpdate-of_free equal_fold symmetric new h.0.found s.rows h.0.same_id
                  h.0.same_type (ground (arith, real, h.0.same_id)) types
                  (any_clash-false equal_fold new new.id s.rows h.1));
            known = write_over-known new s.next_id s.rows g.known;
            positive = g.positive;
          }

      go :
          (e : Option Error) (s : RepoService)
          → CanUpdate id new s
          → Ends {A = Bool}
              (λ done s. IsRegistry equal_fold s)
              (IsRegistry equal_fold)
              (continue_with
                (λ done s.
                  if violates_index new s.rows
                  then (s, err (write_error_of index_violated))
                  else (record s { rows = write_over new s.rows }, ok true))
                (lift (written e) s))
      go none s h = overwritten s (violates_index new s.rows) h
      go (some e) s h = h.0.registry

  pub update-IsRegistry :
      (env : SaveEnv) (id : ℕ) (r : UpdateRepoRequest)
      → Keeps (IsRegistry equal_fold) (update equal_fold gcm key env id r)
  unfolding update CanUpdate
  update-IsRegistry env id r = Triple-bind (get_lem env id) (λ repo.
      Triple-bind (change_lem env r id repo) (λ new.
        Triple-bind
          (Triple-on_error
            (ensure_lem equal_fold (IsChange id new) env new.name new.type new.endpoint new.id)
            (λ s h. h.registry))
          (λ unique. Triple-bind (update_row_lem env id new) (λ done.
            Keeps-resync (IsRegistry equal_fold) (IsRegistry-of_rows equal_fold) env id
              (needs_resync r)))))
