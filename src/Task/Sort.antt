-- ===== src/Task/Sort.antt =====
-- sort.Strings: the order of texts by bytes, and its sort.
use mathlib.Core.List.{Permᴰ}
use auto_restic.Shared.{
  All, ◌≡◌, refl, ◌∙◌, Bool, true, false, List, [], ◌∷◌, arith, Text, if◌then◌else◌, ltb,
  Bool-cases, inl, inr,
}

pub text_le : Text → Text → Bool
text_le [] t = true
text_le (a ∷ s) [] = false
text_le (a ∷ s) (b ∷ t) =
    let rest = text_le s t in if ltb a b then true else if ltb b a then false else rest

pub insert_sorted : Text → List Text → List Text
insert_sorted k [] = k ∷ []
insert_sorted k (j ∷ js) =
    let rest = insert_sorted k js in if text_le k j then k ∷ j ∷ js else j ∷ rest

unfoldable pub sort_texts : List Text → List Text
unfolding text_le insert_sorted
sort_texts [] = []
sort_texts (k ∷ ks) = insert_sorted k (sort_texts ks)

text_le_total : (s t : Text) → text_le s t ≡ false → text_le t s ≡ true
unfolding text_le
text_le_total [] t h = cc
text_le_total (a ∷ s) [] h = refl
text_le_total (a ∷ s) (b ∷ t) h = ground (arith, text_le_total s t)

text_le_antisymm : (s t : Text) → text_le s t ≡ true → text_le t s ≡ true → s ≡ t
unfolding text_le
text_le_antisymm [] [] h k = refl
text_le_antisymm [] (b ∷ t) h k = cc
text_le_antisymm (a ∷ s) [] h k = cc
text_le_antisymm (a ∷ s) (b ∷ t) h k = ground (arith, text_le_antisymm s t)

text_le_trans : (s t u : Text) → text_le s t ≡ true → text_le t u ≡ true → text_le s u ≡ true
unfolding text_le
text_le_trans [] t u h k = refl
text_le_trans (a ∷ s) [] u h k = cc
text_le_trans (a ∷ s) (b ∷ t) [] h k = cc
text_le_trans (a ∷ s) (b ∷ t) (c ∷ u) h k = ground (arith, text_le_trans s t u)

insert_sorted_comm :
    (j k : Text) (l : List Text)
    → insert_sorted j (insert_sorted k l) ≡ insert_sorted k (insert_sorted j l)
unfolding insert_sorted
insert_sorted_comm j k [] = ground (arith, text_le_total j k, text_le_antisymm j k)
insert_sorted_comm j k (x ∷ l) = ground (
  arith,
  insert_sorted_comm j k l,
  text_le_total j k,
  text_le_antisymm j k,
  text_le_trans j k x,
  text_le_trans k j x,
)

-- Lists that are permutations of one another sort to the same list.
pub sort_texts-Permᴰ : {ks js : List Text} → Permᴰ ks js → sort_texts ks ≡ sort_texts js
unfolding sort_texts
sort_texts-Permᴰ Permᴰ.nil = refl
sort_texts-Permᴰ (Permᴰ.cons e p) = cc (e, sort_texts-Permᴰ p)
sort_texts-Permᴰ (Permᴰ.swap {a = a} {b = b} {l = l} e f) =
    cc (insert_sorted_comm a b (sort_texts l))
sort_texts-Permᴰ (Permᴰ.trans p q) = sort_texts-Permᴰ p ∙ sort_texts-Permᴰ q

-- What holds of every item of the sorted list holds of every item.
module _ (P : Text → Type 0) where
  All-insert_sorted : (k : Text) (ks : List Text) → All P (insert_sorted k ks) → P k × All P ks
  unfolding insert_sorted
  All-insert_sorted k [] h = h
  All-insert_sorted k (j ∷ js) h = elim (Bool-cases (text_le k j)) [
    | inl le ↦ rw (le, insert_sorted) at h
    | inr gt ↦
        let h' : P j × All P (insert_sorted k js) = rw (gt, insert_sorted) at h in
        let (first, rest) = All-insert_sorted k js h'.1 in (first, (h'.0, rest))
  ]

  pub All-sort_texts : (ks : List Text) → All P (sort_texts ks) → All P ks
  unfolding sort_texts
  All-sort_texts [] h = h
  All-sort_texts (k ∷ ks) h =
      let (first, rest) = All-insert_sorted k (sort_texts ks) h in (first, All-sort_texts ks rest)
