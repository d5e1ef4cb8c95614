-- ===== src/Repo/Apart.antt =====
-- Rows that are in nobody's way: ensureRepoUnique of backend/internal/service/repo_service.go, and
-- the writes of backend/internal/repository/repo_store.go.
use auto_restic.Shared.{
  ◌≡◌, ◌⊎◌, inl, inr, sym, ap, ◌∙◌, subst, ℕ, nat_eq, nat_eq_iff, Bool, true, false, List, [], ◌∷◌,
  some, Text, text_eq, text_eq_iff, Eq-Text, trim_space, All, All-map, Bool-cases, arith,
}
use auto_restic.Repo.{Repository}
use auto_restic.Repo.Save.{clashes, is_current, any_clash, find_row, written_over, write_over}
use auto_restic.Repo.Update.{without}

module _ (equal_fold : Text → Text → Bool) where
  -- a row in the way of another one
  abbrev pub clash : Repository → Repository → Bool
  clash r q = clashes equal_fold (trim_space r.name) r.type (trim_space r.endpoint) q

  pub record Apart (r q : Repository) : Type 0 where
    pub other_id : nat_eq r.id q.id ≡ false
    pub no_clash : clash r q ≡ false

  -- No two rows have an identifier in common, or a name, or a type and endpoint.
  abbrev pub AllApart : List Repository → Type 0
  AllApart [] = Unit
  AllApart (r ∷ rs) = All (Apart r) rs × AllApart rs

  abbrev pub OutOfTheWay : Repository → ℕ → Repository → Type 0
  OutOfTheWay new current_id q = (is_current current_id q ≡ true) ⊎ (clash new q ≡ false)

  pub any_clash-false :
      (new : Repository) (current_id : ℕ) (rs : List Repository)
      → any_clash equal_fold (trim_space new.name) new.type (trim_space new.endpoint) current_id rs
        ≡ false
      → All (OutOfTheWay new current_id) rs
  unfolding any_clash
  any_clash-false new current_id [] h = tt
  any_clash-false new current_id (q ∷ rs) h = elim (Bool-cases (is_current current_id q)) [
    | inl current ↦ (inl current, any_clash-false new current_id rs (ground arith))
    | inr other ↦ elim (Bool-cases (clash new q)) [
      | inl in_the_way ↦ absurd (ground arith)
      | inr free ↦ (inr free, any_clash-false new current_id rs (ground arith))
    ]
  ]

  module _ (symmetric : (s t : Text) → equal_fold s t ≡ equal_fold t s) where
    clash_comm : (r q : Repository) → clash r q ≡ clash q r
    clash_comm r q = rw (
      symmetric (trim_space q.name) (trim_space r.name),
      text_eq_comm q.type r.type,
      text_eq_comm (trim_space q.endpoint) (trim_space r.endpoint),
    )
      where
        text_eq_comm : (s t : Text) → text_eq s t ≡ text_eq t s
        text_eq_comm s t = ground (arith, text_eq_iff s t, text_eq_iff t s)

    pub Apart-sym : (r q : Repository) → Apart r q → Apart q r
    Apart-sym r q a = record {
      other_id = ground (arith, a.other_id);
      no_clash = clash_comm q r ∙ a.no_clash;
    }

    -- a row that an update may stand beside, or that it writes over
    abbrev pub BesideUpdate : Repository → Repository → Type 0
    BesideUpdate new q =
        ((nat_eq q.id new.id ≡ true) × (q.type ≡ new.type))
        ⊎ ((nat_eq q.id new.id ≡ false) × (clash new q ≡ false))

    written_over-Apart :
        (new r q : Repository)
        → Apart r q
        → BesideUpdate new r
        → BesideUpdate new q
        → Apart (written_over new r) (written_over new q)
    written_over-Apart new r q a (inl (same, type)) (inl (same', type')) =
        absurd (ground (arith, a.other_id))
    written_over-Apart new r q a (inl (same, type)) (inr (other, free)) =
        rw (same, other) (record { other_id = ground (arith, a.other_id); no_clash = rw type free })
    written_over-Apart new r q a (inr (other, free)) (inl (same, type)) =
        rw (other, same)
          (Apart-sym (record new { type = q.type }) r
            (record { other_id = ground (arith, a.other_id); no_clash = rw type free }))
    written_over-Apart new r q a (inr (other, free)) (inr (other', free')) = rw (other, other') a

    write_over-Apart :
        (new r : Repository) (rs : List Repository)
        → All (Apart r) rs
        → BesideUpdate new r
        → All (BesideUpdate new) rs
        → All (Apart (written_over new r)) (write_over new rs)
    write_over-Apart new r [] a b c = tt
    write_over-Apart new r (q ∷ rs) a b c =
        (written_over-Apart new r q a.0 b c.0, write_over-Apart new r rs a.1 b c.1)

    pub write_over-AllApart :
        (new : Repository) (rs : List Repository)
        → AllApart rs
        → All (BesideUpdate new) rs
        → AllApart (write_over new rs)
    write_over-AllApart new [] a b = tt
    write_over-AllApart new (r ∷ rs) a b =
        (write_over-Apart new r rs a.0 b.0 b.1, write_over-AllApart new rs a.1 b.1)

    -- Where a row is found, no other row has its identifier.
    abbrev pub SameType : Repository → Repository → Type 0
    SameType found q = nat_eq q.id found.id ≡ true → q.type ≡ found.type

    pub find_row-SameType :
        (id : ℕ) (rs : List Repository) (found : Repository)
        → AllApart rs
        → find_row id rs ≡ some found
        → (found.id ≡ id) × All (SameType found) rs
    unfolding find_row
    find_row-SameType id [] found a h = cc
    find_row-SameType id (r ∷ rs) found a h = elim (Bool-cases (nat_eq r.id id)) [
      | inl here ↦
          let same : r ≡ found = cc (rw here at h) in
          (
            subst (λ (x : Repository). x.id ≡ id) same ((nat_eq_iff r.id id).0 here),
            (
              (λ e. ap (λ (x : Repository). x.type) same),
              subst (λ (x : Repository). All (λ q. nat_eq q.id x.id ≡ true → q.type ≡ x.type) rs)
                  same (All-map (Apart r) _ (λ q b e. absurd (ground (arith, b.other_id))) rs a.0),
            ),
          )
      | inr other ↦
          let (id_eq, types) = find_row-SameType id rs found a.1 (rw other at h) in
          (id_eq, ((λ e. absurd (ground arith)), types))
    ]

    -- An update that is in nobody's way stands beside every row.
    pub BesideUpdate-of_free :
        (new found : Repository) (rs : List Repository)
        → new.id ≡ found.id
        → new.type ≡ found.type
        → nat_eq new.id 0 ≡ false
        → All (SameType found) rs
        → All (OutOfTheWay new new.id) rs
        → All (BesideUpdate new) rs
    BesideUpdate-of_free new found [] same type real t o = tt
    BesideUpdate-of_free new found (q ∷ rs) same type real t o = (
      elim (Bool-cases (nat_eq q.id new.id)) [
        | inl current ↦ inl (current, t.0 (rw (← same) current) ∙ sym type)
        | inr other ↦
            inr (other, elim o.0 [ inl current ↦ absurd (ground arith) | inr free ↦ free ])
      ],
      BesideUpdate-of_free new found rs same type real t.1 o.1,
    )

    pub without-All :
        (P : Repository → Type 0) (id : ℕ) (rs : List Repository) → All P rs → All P (without id rs)
    without-All P id [] h = tt
    without-All P id (r ∷ rs) h = elim (Bool-cases (nat_eq r.id id)) [
      | inl gone ↦ rw gone (without-All P id rs h.1)
      | inr kept ↦ rw kept (h.0, without-All P id rs h.1)
    ]

    pub without-AllApart : (id : ℕ) (rs : List Repository) → AllApart rs → AllApart (without id rs)
    without-AllApart id [] h = tt
    without-AllApart id (r ∷ rs) h = elim (Bool-cases (nat_eq r.id id)) [
      | inl gone ↦ rw gone (without-AllApart id rs h.1)
      | inr kept ↦ rw kept (without-All (Apart r) id rs h.0, without-AllApart id rs h.1)
    ]
