-- ===== src/Repo/Registry/Created.antt =====
-- The invariant of the repositories at Create of backend/internal/service/repo_service.go.
use auto_restic.Shared.{
  ◌≡◌, ◌<◌, inl, inr, refl, ℕ, Bool, true, false, List, [], ◌∷◌, Option, none, some, Text, Eq-Text,
  All, All-map, if◌then◌else◌, arith, suc,
}
use auto_restic.Exec.{Error, Result, ok, err}
use auto_restic.Fallible.Triples.{Ends, Triple, Triple-bind, Keeps, Triple-keep}
use auto_restic.Repo.Cipher.{Gcm}
use auto_restic.Repo.{Repository, CreateRepoRequest, normalize_repo_endpoint}
use auto_restic.Repo.Secrets.{encrypt_secrets, Secrets}
use auto_restic.Repo.Save.{
  index_violated, write_error_of, RepoService, SaveEnv, lift, continue_with, violates_index,
  written, insert_row,
}
use auto_restic.Repo.Create.{create, new_repository, access_request, created}
use auto_restic.Repo.Apart.{Apart, OutOfTheWay, any_clash-false}
use auto_restic.Repo.Untouched.{OfRows, Keeps-probing, Keeps-unlock_if_asked, Keeps-follow_up}
use auto_restic.Repo.Registry.{IsRegistry, IsRegistry-of_rows, IsFree, ensure_lem}

module _ (equal_fold : Text → Text → Bool) (gcm : Gcm) (key : Text) where
  -- what an insertion relies on
  CanInsert : CreateRepoRequest → Text → RepoService → Type 0
  CanInsert r endpoint s = IsRegistry equal_fold s × IsFree equal_fold r.name r.type endpoint 0 s

  CanInsert-of_rows : (r : CreateRepoRequest) (endpoint : Text) → OfRows (CanInsert r endpoint)
  unfolding CanInsert
  CanInsert-of_rows r endpoint s trace follow_ups h =
      ((IsRegistry-of_rows equal_fold) s trace follow_ups h.0, h.1)

  -- The row that Create inserts is apart from those that are there.
  insert-Apart :
      (new : Repository) (next_id : ℕ) (rs : List Repository)
      → new.id ≡ next_id
      → All (λ r. (0 < r.id) × (r.id < next_id)) rs
      → All (OutOfTheWay equal_fold new 0) rs
      → All (Apart equal_fold new) rs
  insert-Apart new next_id [] e k o = tt
  insert-Apart new next_id (q ∷ rs) e k o = (
    record {
      other_id = ground arith;
      no_clash = elim o.0 [ inl current ↦ absurd (ground arith) | inr free ↦ free ];
    },
    insert-Apart new next_id rs e k.1 o.1,
  )

  insert_lem :
      (env : SaveEnv) (r : CreateRepoRequest) (endpoint : Text) (secrets : Secrets)
      → Triple
          (CanInsert r endpoint)
          (insert_row env (new_repository r endpoint secrets))
          (λ id s. IsRegistry equal_fold s)
          (IsRegistry equal_fold)
  unfolding insert_row CanInsert
  insert_lem env r endpoint secrets = record { ends = λ s h. go env.write_error s h }
    where
      inserted :
          (s : RepoService) (b : Bool)
          → CanInsert r endpoint s
          → Ends {A = ℕ}
              (λ id s. IsRegistry equal_fold s)
              (IsRegistry equal_fold)
              (if b then (s, err (write_error_of index_violated)) else (
                record s {
                  rows = new_repository r endpoint secrets s.next_id ∷ s.rows;
                  next_id = suc s.next_id;
                },
                ok s.next_id,
              ))
      inserted s true h = h.0
      inserted s false h =
          let g = h.0 in
          record {
            apart = (
              insert-Apart (new_repository r endpoint secrets s.next_id) s.next_id s.rows refl
                  g.known
                  (any_clash-false equal_fold (new_repository r endpoint secrets s.next_id) 0 s.rows
                    h.1),
              g.apart,
            );
            known =
                ((g.positive, omega arith), All-map _ _ (λ q k. (k.0, omega arith)) s.rows g.known);
            positive = omega arith;
          }

      go :
          (e : Option Error) (s : RepoService)
          → CanInsert r endpoint s
          → Ends {A = ℕ}
              (λ id s. IsRegistry equal_fold s)
              (IsRegistry equal_fold)
              (continue_with
                (λ done s.
                  if violates_index (new_repository r endpoint secrets s.next_id) s.rows
                  then (s, err (write_error_of index_violated))
                  else (
                    record s {
                      rows = new_repository r endpoint secrets s.next_id ∷ s.rows;
                      next_id = suc s.next_id;
                    },
                    ok s.next_id,
                  ))
                (lift (written e) s))
      go none s h =
          inserted s (violates_index (new_repository r endpoint secrets s.next_id) s.rows) h
      go (some e) s h = h.0

  pub create-IsRegistry :
      (env : SaveEnv) (r : CreateRepoRequest)
      → Keeps (IsRegistry equal_fold) (create equal_fold gcm key env r)
  unfolding create CanInsert
  create-IsRegistry env r =
      Triple-keep
        (record { ends = λ s h. lifted (IsRegistry equal_fold) s (normalize_repo_endpoint r) h })
        (λ s h. h)
        (λ endpoint.
          let Free = CanInsert r endpoint in
          let of_rows = CanInsert-of_rows r endpoint in
          Triple-bind (ensure_lem equal_fold (IsRegistry equal_fold) env r.name r.type endpoint 0)
            (λ unique.
              Triple-keep (Keeps-probing Free of_rows env (access_request r endpoint)) (λ s h. h.0)
                (λ probe.
                  Triple-keep
                    (Keeps-unlock_if_asked Free of_rows env (access_request r endpoint)
                      r.auto_unlock probe)
                    (λ s h. h.0)
                    (λ unlocked.
                      Triple-keep
                        (record {
                          ends = λ s h.
                              lifted (CanInsert r endpoint) s (encrypt_secrets gcm key env.nonces r)
                                h;
                        })
                        (λ s h. h.0)
                        (λ secrets. Triple-bind (insert_lem env r endpoint secrets) (λ id.
                          Keeps-follow_up (IsRegistry equal_fold) (IsRegistry-of_rows equal_fold)
                            env r.init_on_create unlocked.1 (created id unlocked.0)))))))
    where
      lifted :
          {A : Type 0} (P : RepoService → Type 0) (s : RepoService) (v : Result A)
          → P s
          → Ends (λ a s. P s) P (lift v s)
      lifted P s (ok a) h = h
      lifted P s (err e) h = h
