-- ===== src/Cache/Work.antt =====
-- The worker that indexes the files of one repository, and those that ask for it: enqueueFileIndex,
-- ensureFileWorker, beginLoad, the loop of runFilesSync and finishLoad of
-- backend/internal/service/repo_cache_service.go. Each step is what happens under the mutex.
use auto_restic.Shared.{
  ℕ, suc, ◌-◌, ◌<◌, ◌≡◌, ◌⊎◌, inl, inr, refl, ap, Bool, true, false, List, [], ◌∷◌, Option, none,
  some, arith, if◌then◌else◌, is_some, Eq-Text,
}
use auto_restic.Cache.Queue.{FileIndexRequest, enqueue_file_index, dequeue_file_index}

-- Where the worker of the active load is: before another dequeue, or before finishLoad.
pub data Phase : Type 0 where
  looping ending : Phase

-- The queue, the active load of the files domain, and how many calls of ensureFileWorker are yet to
-- reach beginLoad: those of callers that enqueued, and the one that finishLoad starts.
pub record Work : Type 0 where
  pub queue : List FileIndexRequest
  pub active : Option Phase
  pub ensures : ℕ

abbrev pub idle_work : Work
idle_work = record { queue = []; active = none; ensures = 0 }

-- a caller puts a request into the queue, and is to call ensureFileWorker
unfoldable pub ask : FileIndexRequest → Work → Work
ask req w = record w { queue = enqueue_file_index req w.queue; ensures = suc w.ensures }

abbrev pub begun_by : Option Phase → Option Phase
begun_by none = some looping
begun_by (some phase) = some phase

-- beginLoad
unfoldable pub begin_load : Work → Work
begin_load w = record w { active = begun_by w.active; ensures = w.ensures - 1 }

abbrev pub has_requests : List FileIndexRequest → Bool
has_requests [] = false
has_requests (req ∷ queue) = true

-- finishLoad
unfoldable pub finish_load : Work → Work
finish_load w = record w {
  active = none;
  ensures = if has_requests w.queue then suc w.ensures else w.ensures;
}

pub data Step : Work → Work → Type 0 where
  asks : (req : FileIndexRequest) (w : Work) → Step w (ask req w)
  begins : (w : Work) → 0 < w.ensures → Step w (begin_load w)
  takes :
      (w : Work) (place : ℕ) (req : FileIndexRequest) (rest : List FileIndexRequest)
      → w.active ≡ some looping
      → dequeue_file_index place w.queue ≡ some (req, rest)
      → Step w (record w { queue = rest })
  -- the dequeue that finds nothing
  empties :
      (w : Work)
      → w.active ≡ some looping
      → w.queue ≡ []
      → Step w (record w { active = some ending })
  -- a statement that fails ends the loop, whatever is in the queue
  fails : (w : Work) → w.active ≡ some looping → Step w (record w { active = some ending })
  finishes : (w : Work) → w.active ≡ some ending → Step w (finish_load w)

pub data Reach : Work → Type 0 where
  start : Reach idle_work
  next : {w w' : Work} → Reach w → Step w w' → Reach w'

-- Requests wait for someone: a call that is to start a worker, or the worker.
pub record IsServed (w : Work) : Type 0 where
  pub served : (0 < w.ensures) ⊎ ((is_some w.active ≡ true) ⊎ (w.queue ≡ []))

is_some_begun : (active : Option Phase) → is_some (begun_by active) ≡ true
is_some_begun none = refl
is_some_begun (some phase) = refl

Step-IsServed : {w w' : Work} → Step w w' → IsServed w → IsServed w'
unfolding ask begin_load finish_load
Step-IsServed (asks req w) s = record { served = inl (omega arith) }
Step-IsServed (begins w some_call) s = record { served = inr (inl (is_some_begun w.active)) }
Step-IsServed (takes w place req rest in_loop found) s = record {
  served = inr (inl (ap is_some in_loop));
}
Step-IsServed (empties w in_loop empty) s = record { served = inr (inl refl) }
Step-IsServed (fails w in_loop) s = record { served = inr (inl refl) }
Step-IsServed (finishes w at_end) s = record { served = go w.queue refl }
  where
    go :
        (queue : List FileIndexRequest)
        → w.queue ≡ queue
        → (0 < (if has_requests w.queue then suc w.ensures else w.ensures))
          ⊎ ((is_some {A = Phase} none ≡ true) ⊎ (w.queue ≡ []))
    go [] e = inr (inr e)
    go (req ∷ queue) e = inl (rw e (omega arith))

-- No request is lost: in every state that the callers and the worker can reach, in whatever order
-- they run and whichever statements fail, a request that waits has a worker, or a call that is
-- about to start one.
pub Reach_requests_served :
    {w : Work} → Reach w → (0 < w.ensures) ⊎ ((is_some w.active ≡ true) ⊎ (w.queue ≡ []))
Reach_requests_served r = (go r).served
  where
    go : {w : Work} → Reach w → IsServed w
    go start = record { served = inr (inr refl) }
    go (next r step) = Step-IsServed step (go r)
