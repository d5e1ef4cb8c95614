-- ===== src/Cache/Aggregate/Verdict.antt =====
-- What the state of the whole says of the states it is made of.
use auto_restic.Shared.{
  ◌≡◌, ◌≢◌, refl, sym, ap, ◌∙◌, Bool, true, false, ◌||◌, List, [], ◌∷◌, Option, none, some, Text,
  All, arith, trim_space,
}
use auto_restic.Cache.State.{
  Domain, Status, running, success, failed, stale, interrupted, partial, SyncState,
}
use auto_restic.Cache.Aggregate.{
  judge_core, SyncStateView, Collected, nothing_collected, collect_state, collect_states,
  aggregate_sync_state, judge, is_running, is_failure, is_stale, with_error, join_lines,
  show_errors, without_core, beside_core,
}

abbrev pub any_state : (Status → Bool) → List (Domain × SyncState) → Bool
any_state p [] = false
any_state p (state ∷ states) = p state.1.status || any_state p states

-- the errors of the domains, in order
abbrev pub errors_of : List Text → List (Domain × SyncState) → List Text
errors_of errors [] = errors
errors_of errors (state ∷ states) =
    errors_of (with_error errors state.0 (trim_space state.1.last_error)) states

or_assoc : (a b c : Bool) → (a || b) || c ≡ a || (b || c)
or_assoc true b c = refl
or_assoc false b c = refl

or_false : (a : Bool) → a || false ≡ a
or_false true = refl
or_false false = refl

has_running_lem :
    (c : Collected) (states : List (Domain × SyncState))
    → (collect_states c states).has_running ≡ c.has_running || any_state is_running states
unfolding collect_states collect_state
has_running_lem c [] = sym (or_false c.has_running)
has_running_lem c (state ∷ states) =
    has_running_lem (collect_state c state) states
    ∙ or_assoc c.has_running (is_running state.1.status) _

has_failure_lem :
    (c : Collected) (states : List (Domain × SyncState))
    → (collect_states c states).has_failure ≡ c.has_failure || any_state is_failure states
unfolding collect_states collect_state
has_failure_lem c [] = sym (or_false c.has_failure)
has_failure_lem c (state ∷ states) =
    has_failure_lem (collect_state c state) states
    ∙ or_assoc c.has_failure (is_failure state.1.status) _

has_stale_lem :
    (c : Collected) (states : List (Domain × SyncState))
    → (collect_states c states).has_stale ≡ c.has_stale || any_state is_stale states
unfolding collect_states collect_state
has_stale_lem c [] = sym (or_false c.has_stale)
has_stale_lem c (state ∷ states) =
    has_stale_lem (collect_state c state) states ∙ or_assoc c.has_stale (is_stale state.1.status) _

errors_lem :
    (c : Collected) (states : List (Domain × SyncState))
    → (collect_states c states).errors ≡ errors_of c.errors states
unfolding collect_states collect_state
errors_lem c [] = refl
errors_lem c (state ∷ states) = errors_lem (collect_state c state) states

view_error_lem :
    (c : Collected) (states : List (Domain × SyncState))
    → c.view.error ≡ []
    → (collect_states c states).view.error ≡ []
unfolding collect_states collect_state
view_error_lem c [] h = h
view_error_lem c (state ∷ states) h = view_error_lem (collect_state c state) states (ground (arith))

-- nothing runs, has failed or is stale
abbrev IsQuiet : Collected → Type 0
IsQuiet c = (c.has_running ≡ false) × ((c.has_failure ≡ false) × (c.has_stale ≡ false))

without_core_success : (c : Collected) → (without_core c).status ≡ success → IsQuiet c
without_core_success c h = ground arith

beside_core_success : (c : Collected) → (beside_core c).status ≡ success → IsQuiet c
beside_core_success c h = ground arith

judge_success :
    (c : Collected) (own : Option SyncState) → (judge c own).status ≡ success → IsQuiet c
unfolding judge
judge_success c none h = without_core_success c h
judge_success c (some state) h = go state.status h
  where
    go : (status : Status) → (judge_core c state.log_id status).status ≡ success → IsQuiet c
    go success h = beside_core_success c h
    go partial h = without_core_success c h
    go running h = cc
    go failed h = cc
    go interrupted h = cc
    go stale h = cc

judge_error :
    (c : Collected) (own : Option SyncState) → c.view.error ≡ [] → (judge c own).error ≡ []
unfolding judge
judge_error c none h = without h
  where
    without : c.view.error ≡ [] → (without_core c).error ≡ []
    without h = ground arith
judge_error c (some state) h = go state.status
  where
    go : (status : Status) → (judge_core c state.log_id status).error ≡ []
    go success = ground arith
    go partial = ground arith
    go running = refl
    go failed = h
    go interrupted = h
    go stale = h

any_false :
    (p : Status → Bool) (states : List (Domain × SyncState))
    → any_state p states ≡ false
    → All (λ state. p state.1.status ≡ false) states
any_false p [] h = tt
any_false p (state ∷ states) h =
    let (first, rest) = split (p state.1.status) _ h in (first, any_false p states rest)
  where
    split : (a b : Bool) → a || b ≡ false → (a ≡ false) × (b ≡ false)
    split true b h = cc
    split false b h = (refl, h)

show_errors_status :
    (errors : List Text) (view : SyncStateView) → (show_errors errors view).status ≡ view.status
show_errors_status [] view = refl
show_errors_status (e ∷ es) view = refl

-- A repository is reported as synchronised only when there is a state and none of its states runs, is
-- stale, has failed or was interrupted.
pub aggregate_success :
    (states : List (Domain × SyncState))
    → (aggregate_sync_state states).status ≡ success
    → (states ≢ [])
      × (All (λ state. is_running state.1.status ≡ false) states
          × (All (λ state. is_failure state.1.status ≡ false) states
              × All (λ state. is_stale state.1.status ≡ false) states))
unfolding aggregate_sync_state
aggregate_success [] h = cc
aggregate_success (state ∷ states) h =
    let c = collect_states nothing_collected (state ∷ states) in
    let (quiet, (sound, fresh)) =
      judge_success c c.core_state (sym (show_errors_status c.errors _) ∙ h) in
    (
      (λ empty. cc),
      (
        any_false is_running (state ∷ states)
            (sym (has_running_lem nothing_collected (state ∷ states)) ∙ quiet),
        (
          any_false is_failure (state ∷ states)
              (sym (has_failure_lem nothing_collected (state ∷ states)) ∙ sound),
          any_false is_stale (state ∷ states)
              (sym (has_stale_lem nothing_collected (state ∷ states)) ∙ fresh),
        ),
      ),
    )

show_errors_error :
    (errors : List Text) (view : SyncStateView)
    → view.error ≡ []
    → (show_errors errors view).error ≡ join_lines errors
show_errors_error [] view h = h
show_errors_error (e ∷ es) view h = refl

-- The error that is reported is that of all domains that have one, joined in their order, whatever
-- the status: a synchronisation that runs does not clear it.
pub aggregate_error :
    (states : List (Domain × SyncState))
    → (aggregate_sync_state states).error ≡ join_lines (errors_of [] states)
unfolding aggregate_sync_state
aggregate_error [] = refl
aggregate_error (state ∷ states) =
    let c = collect_states nothing_collected (state ∷ states) in
    show_errors_error c.errors (judge c c.core_state)
      (judge_error c c.core_state (view_error_lem nothing_collected (state ∷ states) refl))
    ∙ ap join_lines (errors_lem nothing_collected (state ∷ states))
