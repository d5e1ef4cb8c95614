-- ===== src/Guard.antt =====
-- A guard that lets one run of a key go on at a time, as the TaskService has it for tasks and the
-- scheduler for the maintenance of repositories: an interface, and what runs under it can rely on.
use auto_restic.Shared.{
  ℕ, ◌≡◌, sym, ap, ◌∙◌, Bool, true, false, not, ◌&&◌, ◌||◌, Option, none, some, nat_eq, nat_eq_iff,
  if◌then◌else◌, arith, inl, inr, Bool-cases,
}

pub record Guard : Type 1 where
  pub State : Type 0
  -- what a run is marked with
  pub Label : Type 0
  pub initial : State
  pub marked : State → ℕ → Bool
  -- marks a key, and tells whether it was free
  pub mark : Label → ℕ → State → State × Bool
  pub clear : ℕ → State → State
  pub nothing_marked : (k : ℕ) → marked initial k ≡ false
  pub mark_says : (l : Label) (k : ℕ) (s : State) → (mark l k s).1 ≡ not (marked s k)
  pub mark_marks :
      (l : Label) (k j : ℕ) (s : State) → marked (mark l k s).0 j ≡ nat_eq k j || marked s j
  pub clear_clears : (k j : ℕ) (s : State) → marked (clear k s) j ≡ not (nat_eq k j) && marked s j

none_is_not_some : {k : ℕ} → ¬ none ≡ some k
none_is_not_some h = cc

some_inj : {a b : ℕ} → some a ≡ some b → a ≡ b
some_inj h = cc

true_is_not_false : ¬ true ≡ false
true_is_not_false h = cc

module _ (g : Guard) where
  open g use {
    State, Label, initial, marked, mark, clear, nothing_marked, mark_says, mark_marks, clear_clears,
  }

  -- The guard, and which key each thread runs.
  pub record Runs : Type 0 where
    pub state : State
    pub running : ℕ → Option ℕ

  abbrev pub set_running : (ℕ → Option ℕ) → ℕ → Option ℕ → ℕ → Option ℕ
  set_running running i v j = if nat_eq i j then v else running j

  abbrev pub no_runs : Runs
  no_runs = record { state = initial; running = λ i. none }

  -- A thread that finds its key marked does not run; one that runs clears its key at the end.
  pub data Step (r : Runs) : Runs → Type 0 where
    begins :
        (l : Label) (i k : ℕ)
        → r.running i ≡ none
        → (mark l k r.state).1 ≡ true
        → Step r
            (record { state = (mark l k r.state).0; running = set_running r.running i (some k) })
    refused :
        (l : Label) (i k : ℕ)
        → (mark l k r.state).1 ≡ false
        → Step r (record r { state = (mark l k r.state).0 })
    ends :
        (i k : ℕ)
        → r.running i ≡ some k
        → Step r (record { state = clear k r.state; running = set_running r.running i none })

  pub data Reach : Runs → Type 0 where
    start : Reach no_runs
    next : {r r' : Runs} → Reach r → Step r r' → Reach r'

  pub record IsGuarded (r : Runs) : Type 0 where
    pub runs_marked : (i k : ℕ) → r.running i ≡ some k → marked r.state k ≡ true
    pub one_run : (i j k : ℕ) → r.running i ≡ some k → r.running j ≡ some k → i ≡ j
    pub marked_runs : (k : ℕ) → marked r.state k ≡ true → (i : ℕ) × (r.running i ≡ some k)

  -- a thread that runs is another than one that does not
  kept_run :
      (running : ℕ → Option ℕ) (i a k' : ℕ) (v : Option ℕ)
      → running a ≡ some k'
      → ¬ i ≡ a
      → set_running running i v a ≡ some k'
  kept_run running i a k' v e other = ground (arith, nat_eq_iff i a)

  Step-IsGuarded : {r r' : Runs} → Step r r' → IsGuarded r → IsGuarded r'
  Step-IsGuarded {r} (begins l i k idle fresh) h = record {
    runs_marked = λ a k' e.
        ground
          (arith, mark_marks l k k' r.state, nat_eq_iff i a, h.runs_marked a k', nat_eq_iff k k');
    one_run = λ a b k' ea eb. ground (
      arith,
      mark_says l k r.state,
      h.runs_marked a k',
      h.runs_marked b k',
      h.one_run a b k',
      nat_eq_iff i a,
      nat_eq_iff i b,
    );
    marked_runs = λ k' m. elim (Bool-cases (nat_eq k k')) [
      | inl same ↦ (i, ground (arith, nat_eq_iff k k', nat_eq_iff i i))
      | inr other ↦
          let (a, e) = h.marked_runs k' (ground (arith, mark_marks l k k' r.state)) in
          (
            a,
            kept_run r.running i a k' (some k) e
                (λ same. none_is_not_some (sym idle ∙ ap r.running same ∙ e)),
          )
    ];
  }
  Step-IsGuarded {r} (refused l i k taken) h = record {
    runs_marked = λ a k' e. ground (arith, mark_marks l k k' r.state, h.runs_marked a k' e);
    one_run = h.one_run;
    marked_runs = λ k' m.
        h.marked_runs k'
          (ground (arith, mark_marks l k k' r.state, mark_says l k r.state, nat_eq_iff k k'));
  }
  Step-IsGuarded {r} (ends i k runs) h = record {
    runs_marked = λ a k' e. ground (
      arith,
      clear_clears k k' r.state,
      h.runs_marked a k',
      h.one_run i a k',
      nat_eq_iff i a,
      nat_eq_iff k k',
    );
    one_run = λ a b k' ea eb. ground (arith, h.one_run a b k', nat_eq_iff i a, nat_eq_iff i b);
    marked_runs = λ k' m.
        let was : marked r.state k' ≡ true = ground (arith, clear_clears k k' r.state) in
        let other : ¬ k ≡ k' = λ same. ground (arith, clear_clears k k' r.state, nat_eq_iff k k') in
        let (a, e) = h.marked_runs k' was in
        (
          a,
          kept_run r.running i a k' none e
              (λ same. other (some_inj (sym runs ∙ ap r.running same ∙ e))),
        );
  }

  pub Reach-IsGuarded : {r : Runs} → Reach r → IsGuarded r
  Reach-IsGuarded start = record {
    runs_marked = λ i k e. absurd (none_is_not_some e);
    one_run = λ i j k e f. absurd (none_is_not_some e);
    marked_runs = λ k m. absurd (true_is_not_false (sym m ∙ nothing_marked k));
  }
  Reach-IsGuarded (next r step) = Step-IsGuarded step (Reach-IsGuarded r)
