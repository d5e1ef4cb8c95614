-- ===== src/Repo/Locks/Owner.antt =====
-- The search for the owner of a lock: resticLockProcessStatus of
-- backend/internal/service/repo_service.go.
use auto_restic.Shared.{
  ◌≡◌, ◌⊎◌, ◌↔◌, ◌<◌, inl, inr, refl, subst, ℕ, zero, suc, ltb, nat_eq, nat_eq_iff, true, false,
  some, Bool-cases, Option-cases, arith,
}
use auto_restic.Repo.Locks.{
  Processes, ResticLockOwnerStatus, ourselves, someone_else, next_pid, search_owner,
}

-- The search from a process comes to this instance, by processes other than the first.
pub data Reaches (p : Processes) : ℕ → Type 0 where
  here : {pid : ℕ} → 1 < pid → pid ≡ p.own_pid → Reaches p pid
  above : {pid n : ℕ} → 1 < pid → next_pid p pid ≡ some n → Reaches p n → Reaches p pid

first-not_Reaches : {p : Processes} {pid : ℕ} → ltb 1 pid ≡ false → ¬ Reaches p pid
first-not_Reaches h (here later own) = ground arith
first-not_Reaches h (above later found r) = ground arith

inv_Reaches :
    {p : Processes} {pid : ℕ}
    → Reaches p pid
    → (pid ≡ p.own_pid) ⊎ ((n : ℕ) × ((next_pid p pid ≡ some n) × Reaches p n))
inv_Reaches (here later own) = inl own
inv_Reaches (above later found r) = inr (_, (found, r))

-- In a process table without cycles the search ends, with as much fuel as the table is deep. It
-- finds this instance exactly when it comes to it by processes other than the first.
pub search_owner_ends :
    (p : Processes) (depth : ℕ → ℕ)
    → ((pid n : ℕ) → next_pid p pid ≡ some n → depth n < depth pid)
    → (fuel pid : ℕ) → depth pid < fuel
    → (status : ResticLockOwnerStatus) × ((search_owner p fuel pid ≡ some status)
        × ((status.alive ≡ true) × ((status.current_instance ≡ true) ↔ Reaches p pid)))
unfolding search_owner
search_owner_ends p depth falls zero pid h = elim h [ ]
search_owner_ends p depth falls (suc fuel) pid h = elim (Bool-cases (ltb 1 pid)) [
  | inr first ↦
      rw first (someone_else, (refl, (refl, ((λ e. cc), λ r. absurd (first-not_Reaches first r)))))
  | inl later ↦ elim (Bool-cases (nat_eq pid p.own_pid)) [
    | inl own ↦
        rw (later, own)
          (
            ourselves,
            (
              refl,
              (refl, ((λ e. here (ground arith) ((nat_eq_iff pid p.own_pid).0 own)), λ r. refl)),
            ),
          )
    | inr other ↦ elim (Option-cases (next_pid p pid)) [
      | inl last ↦
          rw (later, other, last)
            (
              someone_else,
              (
                refl,
                (
                  refl,
                  (
                    (λ e. cc),
                    λ r. absurd (elim (inv_Reaches r) [
                      | inl own ↦ ground arith
                      | inr (n, (found, r')) ↦ cc
                    ]),
                  ),
                ),
              ),
            )
      | inr (n, found) ↦
          let (status, (eq, (alive, found_iff))) =
            search_owner_ends p depth falls fuel n (omega (arith, falls pid n found)) in
          rw (later, other, found)
            (
              status,
              (
                eq,
                (
                  alive,
                  (
                    (λ e. above (ground arith) found (found_iff.0 e)),
                    λ r. elim (inv_Reaches r) [
                      | inl own ↦ absurd (ground arith)
                      | inr (m, (found', r')) ↦
                          let same : m ≡ n = cc (found', found) in
                          found_iff.1 (subst (Reaches p) same r')
                    ],
                  ),
                ),
              ),
            )
    ]
  ]
]
