-- ===== src/Logs/Pages.antt =====
-- Pages of logs: backend/internal/repository/log_store.go.
use auto_restic.Shared.{
  Bool, ◌≡◌, ◌<◌, ◌≤◌, All, length, ◌+◌, ◌*◌, refl, sym, ap, ◌∙◌, ℕ, zero, suc, pos, List, [], ◌∷◌,
  ◌++◌, Option, Text, take, drop, map, filter, i64_sign, arith,
}
use mathlib.Core.List.{Permᴰ}
use native.Mathlib.Nat.{suc-mul}
use auto_restic.Logs.{
  LogRow, LogQuery, LogListItem, page_of, size_of, offset_of, is_match, item_of, query_logs,
}

take_of_eq : {A : Type 0} (m n : ℕ) (xs : List A) → m ≡ n → take m xs ≡ take n xs
take_of_eq m n xs e = ap (λ k. take k xs) e

take-nil : {A : Type 0} (n : ℕ) → take {A = A} n [] ≡ []
take-nil zero = refl
take-nil (suc n) = refl

take-more : {A : Type 0} (m n : ℕ) (xs : List A) → take m xs ++ take n (drop m xs) ≡ take (m + n) xs
take-more zero n xs = take_of_eq n (0 + n) xs (omega arith)
take-more (suc m) zero [] = sym (take-nil (suc m + 0))
take-more (suc m) (suc n) [] = sym (take-nil (suc m + suc n))
take-more (suc m) n (x ∷ xs) =
    let e : suc (m + n) ≡ suc m + n = omega arith in
    ap (λ ys. x ∷ ys) (take-more m n xs) ∙ take_of_eq (suc (m + n)) (suc m + n) (x ∷ xs) e

map_append : {A B : Type 0} (f : A → B) (xs ys : List A) → map f (xs ++ ys) ≡ map f xs ++ map f ys
map_append f [] ys = refl
map_append f (x ∷ xs) ys = ap (λ zs. f x ∷ zs) (map_append f xs ys)

offset_lem : (n size : ℕ) → n * size < i64_sign → offset_of (page_of (pos (suc n))) size ≡ n * size
offset_lem n size h = ground arith

-- the last that started in front
abbrev pub IsLatestFirst : List LogRow → Type 0
IsLatestFirst [] = Unit
IsLatestFirst (r ∷ rs) = All (λ (x : LogRow). x.started_at ≤ r.started_at) rs × IsLatestFirst rs

module _ (contains : Text → Text → Bool) (name : ℕ → Option Text) (now : ℕ)
    (order_by : List LogRow → List LogRow) (rows : List LogRow) (q : LogQuery) where
  -- the items of the first pages, one behind another
  abbrev pub pages : ℕ → List LogListItem
  pages zero = []
  pages (suc n) =
      pages n
      ++ (query_logs contains name now order_by rows (record q { page = pos (suc n) })).items

  pages_of_found :
      (n : ℕ)
      → n * size_of q.page_size < i64_sign
      → pages n
        ≡ map
            (item_of contains name now)
            (take (n * size_of q.page_size) (order_by (filter (is_match contains name now q) rows)))
  unfolding query_logs is_match
  pages_of_found zero h = ap (map (item_of contains name now)) (
      take_of_eq 0 (0 * size_of q.page_size) (order_by (filter (is_match contains name now q) rows))
        (omega arith))
  pages_of_found (suc n) h =
      let size = size_of q.page_size in
      let found = order_by (filter (is_match contains name now q) rows) in
      let item = item_of contains name now in
      let before : n * size < i64_sign = grind (arith, suc-mul n size) in
      let offset : offset_of (page_of (pos (suc n))) size ≡ n * size = offset_lem n size before in
      rw (pages_of_found n before, offset)
        (sym (map_append item (take (n * size) found) (take size (drop (n * size) found)))
          ∙ ap (map item) (
              take-more (n * size) size found
              ∙ take_of_eq (n * size + size) (suc n * size) found (sym (suc-mul n size))))

  -- Where the database lists the logs that match with the last that started in front, each once, and
  -- in the same order for each query, the first pages hold the front of that list, as much as there
  -- is room for: the pages leave out and repeat nothing, as long as an int64 holds the offset. The
  -- total is the number of the logs that match.
  pub pages_lem :
      (n : ℕ)
      → Permᴰ
          (order_by (filter (is_match contains name now q) rows))
          (filter (is_match contains name now q) rows)
      → IsLatestFirst (order_by (filter (is_match contains name now q) rows))
      → n * size_of q.page_size < i64_sign
      → (found : List LogRow) × (Permᴰ found (filter (is_match contains name now q) rows)
          × (IsLatestFirst found
              × ((pages n ≡ map (item_of contains name now) (take (n * size_of q.page_size) found))
                  × ((query_logs contains name now order_by rows q).total
                      ≡ length (filter (is_match contains name now q) rows)))))
  unfolding query_logs
  pages_lem n once latest room = (
    order_by (filter (is_match contains name now q) rows),
    (once, (latest, (pages_of_found n room, refl))),
  )
