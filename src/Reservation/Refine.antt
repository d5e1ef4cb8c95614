-- ===== src/Reservation/Refine.antt =====
-- Reserved repositories as what they are for, one lock for each: acquireRepoOperation and
-- releaseRepoOperation of backend/internal/service/repo_service.go, and an abstract description.
use auto_restic.Shared.{
  arith, ◌≡◌, ◌≢◌, ◌↔◌, refl, sym, ap, ◌∙◌, subst, ℕ, nat_eq, nat_eq_iff, Bool, true, false, Option,
  none, some, lookup, Eq-ℕ, Bool-cases, Option-cases, inl, inr, if◌then◌else◌,
}
use auto_restic.Reservation.{
  RepoOperationState, RepoOperationReservation, Attempt, acquired, blocked, busy,
  acquire_repo_operation,
}
use auto_restic.Reservation.Threads.{
  Call, Thread, idle, waiting, holding, System, set_thread, after_attempt, attempt, Step, enter,
  wake, give_up, leave, Reach,
}
use auto_restic.Reservation.Invariant.{IsExclusive}
use auto_restic.Reservation.Release.{Reach-IsExclusive}

-- which thread has a repository
abbrev pub Locks : Type 0
Locks = ℕ → Option ℕ

abbrev pub set_lock : Locks → ℕ → Option ℕ → Locks
set_lock a p v q = if nat_eq p q then v else a q

-- A free lock is taken, or a lock is given back by the thread that has it.
pub data HolderStep (a : Locks) : Locks → Type 0 where
  stay : HolderStep a a
  take : (i p : ℕ) → a p ≡ none → HolderStep a (set_lock a p (some i))
  give : (i p : ℕ) → a p ≡ some i → HolderStep a (set_lock a p none)

abbrev pub Holds : Thread → ℕ → Type 0
Holds t p = (r : RepoOperationReservation) × ((t ≡ holding r) × (r.repo_id ≡ p))

-- The locks are those that the threads hold.
abbrev pub IsAbstract : (ℕ → Thread) → Locks → Type 0
IsAbstract threads a = (p i : ℕ) → (a p ≡ some i) ↔ Holds (threads i) p

same_value : {i j : ℕ} → nat_eq i j ≡ true → i ≡ j
same_value {i = i} {j = j} e = (nat_eq_iff i j).0 e

apart : {i j : ℕ} → nat_eq i j ≡ false → i ≢ j
apart {i = i} {j = j} other e = ground arith

some_same : {i j : ℕ} → some i ≡ some j → i ≡ j
some_same e = cc

held_repo : {r : RepoOperationReservation} {p : ℕ} → Holds (holding r) p → r.repo_id ≡ p
held_repo (x, (e, at)) = cc

idle-Holds : {p : ℕ} → ¬ Holds idle p
idle-Holds (x, (e, at)) = cc

waiting-Holds : {c : Call} {channel p : ℕ} → ¬ Holds (waiting c channel) p
waiting-Holds (x, (e, at)) = cc

-- A thread that holds nothing goes on without a repository.
keep-IsAbstract :
    (threads : ℕ → Thread) (a : Locks) (i : ℕ) (t : Thread)
    → ((p : ℕ) → ¬ Holds (threads i) p)
    → ((p : ℕ) → ¬ Holds t p)
    → IsAbstract threads a
    → IsAbstract (set_thread threads i t) a
keep-IsAbstract threads a i t before after h p j = elim (Bool-cases (nat_eq i j)) [
  | inr other ↦ rw other (h p j)
  | inl here ↦ rw here (
    (λ e.
        absurd (
          before p (subst (λ (k : ℕ). Holds (threads k) p) (sym (same_value here)) ((h p j).0 e)))),
    λ held. absurd (after p held),
  )
]

take-IsAbstract :
    (threads : ℕ → Thread) (a : Locks) (i : ℕ) (r : RepoOperationReservation)
    → ((p : ℕ) → ¬ Holds (threads i) p)
    → ((j : ℕ) → ¬ Holds (threads j) r.repo_id)
    → IsAbstract threads a
    → IsAbstract (set_thread threads i (holding r)) (set_lock a r.repo_id (some i))
take-IsAbstract threads a i r before free h p j = elim (Bool-cases (nat_eq r.repo_id p)) [
  | inl there ↦ elim (Bool-cases (nat_eq i j)) [
    | inl here ↦
        rw (there, here) ((λ e. (r, (refl, same_value there))), λ held. ap some (same_value here))
    | inr other ↦
        rw (there, other)
          (
            (λ e. absurd (apart other (some_same e))),
            λ held. absurd (free j (subst (Holds (threads j)) (sym (same_value there)) held)),
          )
  ]
  | inr away ↦ elim (Bool-cases (nat_eq i j)) [
    | inl here ↦
        rw (away, here)
          (
            (λ e. absurd (
                before p
                  (subst (λ (k : ℕ). Holds (threads k) p) (sym (same_value here)) ((h p j).0 e)))),
            λ held. absurd (apart away (held_repo held)),
          )
    | inr other ↦ rw (away, other) (h p j)
  ]
]

give-IsAbstract :
    (threads : ℕ → Thread) (a : Locks) (i : ℕ) (r : RepoOperationReservation)
    → threads i ≡ holding r
    → ((j : ℕ) → Holds (threads j) r.repo_id → i ≡ j)
    → IsAbstract threads a
    → IsAbstract (set_thread threads i idle) (set_lock a r.repo_id none)
give-IsAbstract threads a i r holds only h p j = elim (Bool-cases (nat_eq r.repo_id p)) [
  | inl there ↦ elim (Bool-cases (nat_eq i j)) [
    | inl here ↦ rw (there, here) ((λ e. cc), λ held. absurd (idle-Holds held))
    | inr other ↦
        rw (there, other)
          (
            (λ e. cc),
            λ held.
                absurd
                  (apart other (only j (subst (Holds (threads j)) (sym (same_value there)) held))),
          )
  ]
  | inr away ↦ elim (Bool-cases (nat_eq i j)) [
    | inl here ↦
        rw (away, here)
          (
            (λ e. absurd (
                apart away (
                  held_repo (
                    subst (λ (t : Thread). Holds t p) holds
                      (subst (λ (k : ℕ). Holds (threads k) p) (sym (same_value here))
                        ((h p j).0 e)))))),
            λ held. absurd (idle-Holds held),
          )
    | inr other ↦ rw (away, other) (h p j)
  ]
]

-- what a round acquires
abbrev fresh : System → Call → RepoOperationReservation
fresh s c = record {
  repo_id = c.repo_id;
  state = record { class = c.class; kind = c.kind; done = s.service.next_channel };
}

acquire_free :
    (s : System) (c : Call)
    → lookup c.repo_id s.service.ops ≡ none
    → (acquire_repo_operation s.service c.repo_id c.kind c.class c.wait).0 ≡ acquired (fresh s c)
unfolding acquire_repo_operation
acquire_free s c unlocked = cc unlocked

acquire_busy :
    (s : System) (c : Call) (st : RepoOperationState)
    → lookup c.repo_id s.service.ops ≡ some st
    → (acquire_repo_operation s.service c.repo_id c.kind c.class c.wait).0
      ≡ (if c.wait then blocked st.done else busy c.repo_id st.kind)
unfolding acquire_repo_operation
acquire_busy s c st locked = cc locked

threads_of :
    (s : System) (i : ℕ) (c : Call) (v : Attempt)
    → (acquire_repo_operation s.service c.repo_id c.kind c.class c.wait).0 ≡ v
    → (attempt s i c).threads ≡ set_thread s.threads i (after_attempt c v)
unfolding attempt
threads_of s i c v e = ap (λ v. set_thread s.threads i (after_attempt c v)) e

attempt_free :
    (s : System) (i : ℕ) (c : Call)
    → lookup c.repo_id s.service.ops ≡ none
    → (attempt s i c).threads ≡ set_thread s.threads i (holding (fresh s c))
attempt_free s i c unlocked = threads_of s i c (acquired (fresh s c)) (acquire_free s c unlocked)

attempt_busy :
    (s : System) (i : ℕ) (c : Call) (st : RepoOperationState)
    → lookup c.repo_id s.service.ops ≡ some st
    → (t : Thread) × (((attempt s i c).threads ≡ set_thread s.threads i t)
        × ((p : ℕ) → ¬ Holds t p))
attempt_busy s i c st locked =
    (_, (threads_of s i c _ (acquire_busy s c st locked), nothing c.wait))
  where
    nothing :
        (b : Bool) (p : ℕ)
        → ¬ Holds (after_attempt c (if b then blocked st.done else busy c.repo_id st.kind)) p
    nothing true p held = waiting-Holds held
    nothing false p held = idle-Holds held

-- A round of acquireRepoOperation by a thread that holds nothing.
attempt-HolderStep :
    (s : System) (a : Locks) (i : ℕ) (c : Call)
    → IsExclusive s
    → ((p : ℕ) → ¬ Holds (s.threads i) p)
    → IsAbstract s.threads a
    → (b : Locks) × (HolderStep a b × IsAbstract (attempt s i c).threads b)
attempt-HolderStep s a i c exclusive before h =
    elim (Option-cases (lookup c.repo_id s.service.ops)) [
      | inl unlocked ↦ (
        set_lock a c.repo_id (some i),
        (
          take i c.repo_id (no_holder unlocked),
          subst (λ (ts : ℕ → Thread). IsAbstract ts (set_lock a c.repo_id (some i)))
              (sym (attempt_free s i c unlocked))
              (take-IsAbstract s.threads a i (fresh s c) before (nobody unlocked) h),
        ),
      )
      | inr (st, locked) ↦
          let (t, (threads_eq, after)) = attempt_busy s i c st locked in
          (
            a,
            (
              stay,
              subst (λ (ts : ℕ → Thread). IsAbstract ts a) (sym threads_eq)
                  (keep-IsAbstract s.threads a i t before after h),
            ),
          )
    ]
  where
    nobody : lookup c.repo_id s.service.ops ≡ none → (j : ℕ) → ¬ Holds (s.threads j) c.repo_id
    nobody unlocked j (r, (holds, at)) =
        let owned = exclusive.owned j r holds in
        cc (ap (λ p. lookup p s.service.ops) (sym at) ∙ owned, unlocked)

    no_holder : lookup c.repo_id s.service.ops ≡ none → a c.repo_id ≡ none
    no_holder unlocked = elim (Option-cases (a c.repo_id)) [
      | inl free ↦ free
      | inr (j, taken) ↦ absurd (nobody unlocked j ((h c.repo_id j).0 taken))
    ]

-- The service does to its locks what a lock for each repository does: in every reached state, each
-- step leaves them, has a thread take one that is free, or has one give back the one that it has.
pub Step-HolderStep :
    {s t : System} (a : Locks)
    → Reach s
    → IsAbstract s.threads a
    → Step s t
    → (b : Locks) × (HolderStep a b × IsAbstract t.threads b)
Step-HolderStep {s = s} a reach h (enter i c e) =
    attempt-HolderStep s a i c (Reach-IsExclusive reach)
      (λ p held. idle-Holds (subst (λ (t : Thread). Holds t p) e held)) h
Step-HolderStep {s = s} a reach h (wake i c channel e o) =
    attempt-HolderStep s a i c (Reach-IsExclusive reach)
      (λ p held. waiting-Holds (subst (λ (t : Thread). Holds t p) e held)) h
Step-HolderStep {s = s} a reach h (give_up i c channel e) = (
  a,
  (
    stay,
    keep-IsAbstract s.threads a i idle
        (λ p held. waiting-Holds (subst (λ (t : Thread). Holds t p) e held))
        (λ p held. idle-Holds held) h,
  ),
)
Step-HolderStep {s = s} a reach h (leave i r service e released) = (
  set_lock a r.repo_id none,
  (
    give i r.repo_id ((h r.repo_id i).1 (r, (e, refl))),
    give-IsAbstract s.threads a i r e
        (λ j held.
          let (q, (holds, at)) = held in
          (Reach-IsExclusive reach).one_holder i j r q e holds (sym at))
        h,
  ),
)
