-- ===== src/Cache/Planner/Turns.antt =====
-- Whose turn it is in a round of the planner: planRefreshRound of
-- backend/internal/service/repo_cache_service.go.
use mathlib.Core.List.{Memᴰ}
use auto_restic.Shared.{
  sym, subst, ℕ, zero, suc, ◌≡◌, ◌⊎◌, inl, inr, refl, Bool, true, false, List, [], ◌∷◌, Option,
  none, some, All, All-map, take, length, arith, Bool-cases, ap, sym, subst, ◌∙◌,
}
use auto_restic.Exec.{Result, ok, err, ok_inj, err_is_not_ok}
use auto_restic.Cache.Planner.{
  RefreshCandidate, precedes, before_or, insert_candidate, sort_candidates, Planned,
  max_planner_queues_per_round, next_refresh_candidate, add_candidate, collect_candidates,
  first_candidates, plan_refresh_round,
}

some_is_not_none : {c : RefreshCandidate} → ¬ some c ≡ none
some_is_not_none h = cc

some_inj : {c d : RefreshCandidate} → some c ≡ some d → c ≡ d
some_inj h = cc

-- This one does not come after that one.
abbrev pub NotAfter : RefreshCandidate → RefreshCandidate → Type 0
NotAfter a b = precedes b a ≡ false

before_or_trans :
    (m n k : ℕ) (r q t : Bool)
    → before_or n m r ≡ false
    → before_or k n q ≡ false
    → (r ≡ false → q ≡ false → t ≡ false)
    → before_or k m t ≡ false
unfolding before_or
before_or_trans m n k r q t h j rest = ground arith

NotAfter-trans : (a b c : RefreshCandidate) → NotAfter a b → NotAfter b c → NotAfter a c
unfolding precedes
NotAfter-trans a b c h k = before_or_trans a.priority b.priority c.priority _ _ _ h k (λ h k.
    before_or_trans a.due_at b.due_at c.due_at _ _ _ h k (λ h k.
      before_or_trans a.updated_at b.updated_at c.updated_at _ _ _ h k
        (λ h k. before_or_trans a.repo_id b.repo_id c.repo_id _ _ _ h k (λ h k. ground arith))))

NotAfter-precedes : (a b : RefreshCandidate) → precedes a b ≡ true → NotAfter a b
unfolding precedes before_or
NotAfter-precedes a b h = ground arith

abbrev IsSorted : List RefreshCandidate → Type 0
IsSorted [] = Unit
IsSorted (a ∷ cs) = All (NotAfter a) cs × IsSorted cs

insert_candidate-All :
    (P : RefreshCandidate → Type 0) (a : RefreshCandidate) (cs : List RefreshCandidate)
    → P a
    → All P cs
    → All P (insert_candidate a cs)
unfolding insert_candidate
insert_candidate-All P a [] h k = (h, tt)
insert_candidate-All P a (b ∷ bs) h k = elim (Bool-cases (precedes b a)) [
  | inl first ↦ rw first (k.0, insert_candidate-All P a bs h k.1)
  | inr other ↦ rw other (h, k)
]

insert_candidate-IsSorted :
    (a : RefreshCandidate) (cs : List RefreshCandidate)
    → IsSorted cs
    → IsSorted (insert_candidate a cs)
unfolding insert_candidate
insert_candidate-IsSorted a [] h = (tt, tt)
insert_candidate-IsSorted a (b ∷ bs) h = elim (Bool-cases (precedes b a)) [
  | inl first ↦ rw first (
    insert_candidate-All (NotAfter b) a bs (NotAfter-precedes b a first) h.0,
    insert_candidate-IsSorted a bs h.1,
  )
  | inr other ↦
      rw other
        ((other, All-map (NotAfter b) (NotAfter a) (λ c. NotAfter-trans a b c other) bs h.0), h)
]

sort_candidates-IsSorted : (cs : List RefreshCandidate) → IsSorted (sort_candidates cs)
unfolding sort_candidates
sort_candidates-IsSorted [] = tt
sort_candidates-IsSorted (a ∷ cs) =
    insert_candidate-IsSorted a (sort_candidates cs) (sort_candidates-IsSorted cs)

insert_candidate-head :
    (a : RefreshCandidate) (cs : List RefreshCandidate) → Memᴰ a (insert_candidate a cs)
unfolding insert_candidate
insert_candidate-head a [] = Memᴰ.head refl
insert_candidate-head a (b ∷ bs) = elim (Bool-cases (precedes b a)) [
  | inl first ↦ rw first (Memᴰ.tail (insert_candidate-head a bs))
  | inr other ↦ rw other (Memᴰ.head refl)
]

insert_candidate-tail :
    (c a : RefreshCandidate) (cs : List RefreshCandidate)
    → Memᴰ c cs
    → Memᴰ c (insert_candidate a cs)
unfolding insert_candidate
insert_candidate-tail c a [] m = elim m [ ]
insert_candidate-tail c a (b ∷ bs) (Memᴰ.head e) = elim (Bool-cases (precedes b a)) [
  | inl first ↦ rw first (Memᴰ.head e)
  | inr other ↦ rw other (Memᴰ.tail (Memᴰ.head e))
]
insert_candidate-tail c a (b ∷ bs) (Memᴰ.tail m) = elim (Bool-cases (precedes b a)) [
  | inl first ↦ rw first (Memᴰ.tail (insert_candidate-tail c a bs m))
  | inr other ↦ rw other (Memᴰ.tail (Memᴰ.tail m))
]

sort_candidates-Memᴰ :
    (c : RefreshCandidate) (cs : List RefreshCandidate) → Memᴰ c cs → Memᴰ c (sort_candidates cs)
unfolding sort_candidates
sort_candidates-Memᴰ c [] m = elim m [ ]
sort_candidates-Memᴰ c (a ∷ cs) (Memᴰ.head e) =
    subst (λ x. Memᴰ x (insert_candidate a (sort_candidates cs))) (sym e)
      (insert_candidate-head a (sort_candidates cs))
sort_candidates-Memᴰ c (a ∷ cs) (Memᴰ.tail m) =
    insert_candidate-tail c a (sort_candidates cs) (sort_candidates-Memᴰ c cs m)

-- An item of a sorted list is among the first of it, or they are all not after it.
take_turns :
    (n : ℕ) (c : RefreshCandidate) (cs : List RefreshCandidate)
    → IsSorted cs
    → Memᴰ c cs
    → Memᴰ c (take n cs) ⊎ ((length (take n cs) ≡ n) × All (λ d. NotAfter d c) (take n cs))
take_turns zero c cs h m = inr (refl, tt)
take_turns (suc n) c [] h m = elim m [ ]
take_turns (suc n) c (a ∷ cs) h (Memᴰ.head e) = inl (Memᴰ.head e)
take_turns (suc n) c (a ∷ cs) h (Memᴰ.tail m) = elim (take_turns n c cs h.1 m) [
  | inl chosen ↦ inl (Memᴰ.tail chosen)
  | inr (many, all) ↦ inr (ap suc many, (All-Memᴰ (NotAfter a) c cs h.0 m, all))
]
  where
    All-Memᴰ :
        (P : RefreshCandidate → Type 0) (c : RefreshCandidate) (cs : List RefreshCandidate)
        → All P cs
        → Memᴰ c cs
        → P c
    All-Memᴰ P c [] h m = elim m [ ]
    All-Memᴰ P c (a ∷ cs) h (Memᴰ.head e) = subst P (sym e) h.0
    All-Memᴰ P c (a ∷ cs) h (Memᴰ.tail m) = All-Memᴰ P c cs h.1 m

collect_candidates-Memᴰ :
    (now : ℕ) (p : Planned) (c : RefreshCandidate) (ps : List Planned) (due : List RefreshCandidate)
    → Memᴰ p ps
    → next_refresh_candidate now p ≡ ok (some c)
    → collect_candidates now ps ≡ ok due
    → Memᴰ c due
unfolding collect_candidates add_candidate
collect_candidates-Memᴰ now p c [] due m next h = elim m [ ]
collect_candidates-Memᴰ now p c (p' ∷ ps) due m next h =
    here_or_later m (next_refresh_candidate now p') (collect_candidates now ps) refl refl
      (λ cs m' k. collect_candidates-Memᴰ now p c ps cs m' next k) h
  where
    here_or_later :
        Memᴰ p (p' ∷ ps)
        → (first : Result (Option RefreshCandidate)) (rest : Result (List RefreshCandidate))
        → next_refresh_candidate now p' ≡ first
        → collect_candidates now ps ≡ rest
        → ((cs : List RefreshCandidate) → Memᴰ p ps → collect_candidates now ps ≡ ok cs → Memᴰ c cs)
        → add_candidate first rest ≡ ok due
        → Memᴰ c due
    here_or_later m (err e) rest h k later l = absurd (err_is_not_ok l)
    here_or_later m (ok v) (err e) h k later l = absurd (err_is_not_ok l)
    here_or_later (Memᴰ.head same) (ok none) (ok cs) h k later l =
        absurd (some_is_not_none (ok_inj (sym next ∙ ap (next_refresh_candidate now) same ∙ h)))
    here_or_later (Memᴰ.tail m) (ok none) (ok cs) h k later l = later due m (k ∙ l)
    here_or_later (Memᴰ.head same) (ok (some d)) (ok cs) h k later l =
        subst (Memᴰ c) (ok_inj l)
          (Memᴰ.head (some_inj (ok_inj (sym next ∙ ap (next_refresh_candidate now) same ∙ h))))
    here_or_later (Memᴰ.tail m) (ok (some d)) (ok cs) h k later l =
        subst (Memᴰ c) (ok_inj l) (Memᴰ.tail (later cs m k))

-- A repository that is due is in the round, or the round is full of repositories that do not come
-- after it in the order of their turns.
pub plan_refresh_round_turns :
    (now : ℕ) (ps : List Planned) (chosen : List RefreshCandidate) (p : Planned)
    (c : RefreshCandidate)
    → plan_refresh_round now ps ≡ ok chosen
    → Memᴰ p ps
    → next_refresh_candidate now p ≡ ok (some c)
    → Memᴰ c chosen
      ⊎ ((length chosen ≡ max_planner_queues_per_round) × All (λ d. precedes c d ≡ false) chosen)
unfolding plan_refresh_round first_candidates
plan_refresh_round_turns now ps chosen p c planned m next =
    collected (collect_candidates now ps) refl planned
  where
    collected :
        (due : Result (List RefreshCandidate))
        → collect_candidates now ps ≡ due
        → first_candidates due ≡ ok chosen
        → Memᴰ c chosen
          ⊎ ((length chosen ≡ max_planner_queues_per_round)
              × All (λ d. precedes c d ≡ false) chosen)
    collected (err e) h k = absurd (err_is_not_ok k)
    collected (ok due) h k =
        subst
          (λ cs.
            Memᴰ c cs
            ⊎ ((length cs ≡ max_planner_queues_per_round) × All (λ d. precedes c d ≡ false) cs))
          (ok_inj k)
          (take_turns max_planner_queues_per_round c (sort_candidates due)
            (sort_candidates-IsSorted due)
            (sort_candidates-Memᴰ c due (collect_candidates-Memᴰ now p c ps due m next h)))
