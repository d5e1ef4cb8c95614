-- ===== src/Reservation/Release.antt =====
-- The invariant of requests and reserved repositories at releaseRepoOperation of
-- backend/internal/service/repo_service.go, and along the steps of requests.
use auto_restic.Shared.{
  subst, some, if◌then◌else◌, lookup-erase, ℕ, ◌≡◌, true, arith, lookup, Eq-ℕ, nat_eq, erase,
}
use auto_restic.Reservation.{release_repo_operation, RepoOps, RepoOperationReservation}
use auto_restic.Reservation.Threads.{
  start, next, enter, wake, give_up, leave, initial, idle, set_thread, Step, Reach, Call, waiting,
  holding, System,
}
use auto_restic.Reservation.Invariant.{IsExclusive, attempt-IsExclusive}

-- The context of a waiting thread is done.
give_up-IsExclusive :
    (s : System) (i : ℕ) (c : Call) (channel : ℕ)
    → IsExclusive s
    → s.threads i ≡ waiting c channel
    → IsExclusive (record s { threads = set_thread s.threads i idle })
give_up-IsExclusive s i c channel h w = record {
  open_entries = h.open_entries;
  distinct_channels = h.distinct_channels;
  old_channels = h.old_channels;
  owned = λ j r e. ground (arith, h.owned j r);
  one_holder = λ j k r q e f d. ground (arith, h.one_holder j k r q);
  held = λ p st e. let (j, k) = h.held p st e in (j, ground arith);
  awaited = λ j d ch e. ground (arith, h.awaited j d ch);
}

-- The service when a holder has released.
abbrev pub released : RepoOps → RepoOperationReservation → RepoOps
released s r = record s {
  ops = erase r.repo_id s.ops;
  closed = λ c. if nat_eq r.state.done c then true else s.closed c;
}

-- A holder's release never panics, and takes its entry away.
pub release-released :
    (s : System) (i : ℕ) (r : RepoOperationReservation)
    → IsExclusive s
    → s.threads i ≡ holding r
    → release_repo_operation s.service r ≡ some (released s.service r)
unfolding release_repo_operation
release-released s i r h e = ground (arith, h.owned i r, h.open_entries r.repo_id r.state)

released-IsExclusive :
    (s : System) (i : ℕ) (r : RepoOperationReservation)
    → IsExclusive s
    → s.threads i ≡ holding r
    → IsExclusive (record { service = released s.service r; threads = set_thread s.threads i idle })
released-IsExclusive s i r h e = record {
  open_entries = λ p st l. ground (
    arith,
    lookup-erase r.repo_id p s.service.ops,
    h.open_entries p st,
    h.owned i r,
    h.distinct_channels p r.repo_id st r.state,
  );
  distinct_channels = λ p q st su l m d. ground (
    arith,
    lookup-erase r.repo_id p s.service.ops,
    lookup-erase r.repo_id q s.service.ops,
    h.distinct_channels p q st su,
  );
  old_channels =
      λ c o. ground (arith, h.old_channels c, h.owned i r, h.open_entries r.repo_id r.state);
  owned = λ j q f.
      ground
        (arith, lookup-erase r.repo_id q.repo_id s.service.ops, h.owned j q, h.one_holder i j r q);
  one_holder = λ j k q t f g d. ground (arith, h.one_holder j k q t);
  held = λ p st l.
      let (j, k) = h.held p st (ground (arith, lookup-erase r.repo_id p s.service.ops)) in
      (j, ground (arith, lookup-erase r.repo_id p s.service.ops));
  awaited = λ j d ch f.
      ground (arith, lookup-erase r.repo_id d.repo_id s.service.ops, h.awaited j d ch, h.owned i r);
}

pub Step-IsExclusive : {s t : System} → Step s t → IsExclusive s → IsExclusive t
Step-IsExclusive {s} (enter i c e) h = attempt-IsExclusive s h i c (λ r f. cc)
Step-IsExclusive {s} (wake i c channel e o) h = attempt-IsExclusive s h i c (λ r f. cc)
Step-IsExclusive {s} (give_up i c channel e) h = give_up-IsExclusive s i c channel h e
Step-IsExclusive {s} (leave i r service e q) h =
    let same : released s.service r ≡ service = cc (release-released s i r h e) in
    subst
      (λ (v : RepoOps). IsExclusive (record { service = v; threads = set_thread s.threads i idle }))
      same (released-IsExclusive s i r h e)

initial-IsExclusive : IsExclusive initial
unfolding lookup
initial-IsExclusive = record {
  open_entries = λ p st e. cc;
  distinct_channels = λ p q st su e f d. cc;
  old_channels = λ c e. cc;
  owned = λ i r e. cc;
  one_holder = λ i j r q e f d. cc;
  held = λ p st e. cc;
  awaited = λ i c channel e. cc;
}

pub Reach-IsExclusive : {s : System} → Reach s → IsExclusive s
Reach-IsExclusive start = initial-IsExclusive
Reach-IsExclusive (next r st) = Step-IsExclusive st (Reach-IsExclusive r)
