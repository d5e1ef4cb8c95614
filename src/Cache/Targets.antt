-- ===== src/Cache/Targets.antt =====
-- What the queue of file index work has for a snapshot and path.
use auto_restic.Shared.{
  Bool-cases, ◌≡◌, refl, sym, ap, ◌∙◌, Bool, true, false, not, ◌&&◌, ◌||◌, List, [], ◌∷◌, Option,
  none, some, arith, if◌then◌else◌, Eq-Text, text_eq_iff, inl, inr,
}
use auto_restic.Cache.Queue.{FileIndexRequest, same_target, merge_request, enqueue_file_index}

unfoldable pub find_request : FileIndexRequest → List FileIndexRequest → Option FileIndexRequest
unfolding same_target
find_request target [] = none
find_request target (req ∷ queue) =
    let rest = find_request target queue in if same_target req target then some req else rest

-- What an entry is to be after a request: forced if either is, a prewarm only if both are.
abbrev pub asked : FileIndexRequest → Option FileIndexRequest → FileIndexRequest
asked req none = req
asked req (some old) = record old {
  force = old.force || req.force;
  prewarm = old.prewarm && req.prewarm;
}

true_is_not_false : ¬ true ≡ false
true_is_not_false h = cc

forced : (old new : Bool) → (if new && not old then true else old) ≡ old || new
forced true true = refl
forced true false = refl
forced false true = refl
forced false false = refl

prewarmed : (old new : Bool) → (if not new && old then false else old) ≡ old && new
prewarmed true true = refl
prewarmed true false = refl
prewarmed false true = refl
prewarmed false false = refl

merge_request_lem : (old req : FileIndexRequest) → merge_request old req ≡ asked req (some old)
unfolding merge_request
merge_request_lem old req =
    ap
      (λ f. record old {
        force = f;
        prewarm = if not req.prewarm && old.prewarm then false else old.prewarm;
      })
      (forced old.force req.force)
    ∙ ap (λ p. record old { force = old.force || req.force; prewarm = p })
        (prewarmed old.prewarm req.prewarm)

-- Requests with the same target are told apart from none or all of the others.
same_target_eq :
    (a b c : FileIndexRequest) → same_target a b ≡ true → same_target a c ≡ same_target b c
unfolding same_target
same_target_eq a b c h =
    ground (arith, text_eq_iff a.snapshot_id b.snapshot_id, text_eq_iff a.path b.path)

same_target_sym : (a b : FileIndexRequest) → same_target a b ≡ same_target b a
unfolding same_target
same_target_sym a b = ground (
  arith,
  text_eq_iff a.snapshot_id b.snapshot_id,
  text_eq_iff a.path b.path,
  text_eq_iff b.snapshot_id a.snapshot_id,
  text_eq_iff b.path a.path,
)

same_target-merge :
    (old req t : FileIndexRequest) → same_target (merge_request old req) t ≡ same_target old t
unfolding same_target merge_request
same_target-merge old req t = refl

if_same :
    {A : Type 0} (b : Bool) (x y z : A)
    → (if b then x else z) ≡ (if b then x else if b then y else z)
if_same true x y z = refl
if_same false x y z = refl

if_other :
    {A : Type 0} (a b : Bool) (x y z : A)
    → (a ≡ true → b ≡ false)
    → (if a then x else if b then y else z) ≡ (if b then y else if a then x else z)
if_other true true x y z h = absurd (true_is_not_false (h refl))
if_other true false x y z h = refl
if_other false b x y z h = refl

-- A request that is put into the queue is there afterwards, merged with the one for the same snapshot
-- and path if there was one: then it is forced if either is, and a prewarm only if both are. The
-- requests for other targets stay as they are.
pub find_request-enqueue :
    (req target : FileIndexRequest) (queue : List FileIndexRequest)
    → find_request target (enqueue_file_index req queue) ≡ (
        if same_target req target
        then some (asked req (find_request req queue))
        else find_request target queue)
unfolding find_request enqueue_file_index
find_request-enqueue req target [] = refl
find_request-enqueue req target (old ∷ queue) = elim (Bool-cases (same_target old req)) [
  | inl same ↦
      rw
        (
          same,
          same_target-merge old req target,
          same_target_eq old req target same,
          merge_request_lem old req,
        )
        (if_same (same_target req target) (some (asked req (some old))) (some old)
          (find_request target queue))
  | inr other ↦
      rw (other, find_request-enqueue req target queue)
        (if_other (same_target old target) (same_target req target) (some old)
          (some (asked req (find_request req queue))) (find_request target queue)
          (λ h. same_target_sym req target ∙ sym (same_target_eq old target req h) ∙ other))
]
