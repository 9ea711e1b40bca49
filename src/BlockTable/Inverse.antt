-- ===== src/BlockTable/Inverse.antt =====
-- remove_last_page after append_page of kv_block_pool.rs.
use machserve.Common.{
  ◌<◌, ◌≡◌, refl, ap, false, some, List, [], ◌∷◌, length, leb, arith, All, returns,
}
use machserve.Common.Int.{ℤ}
use machserve.BlockTable.{
  BlockTable, is_sentinel, empty_row, insert_page, append_rows, append_page, trim_onto, trim,
  take_page, unless_emptied, take_last, remove_last_page,
}

-- The rows without the last, if that one has no page.
abbrev pub without_empty_last : List (List ℤ) → List (List ℤ)
without_empty_last [] = []
without_empty_last (r ∷ []) = unless_emptied r
without_empty_last (r ∷ s ∷ rs) = r ∷ without_empty_last (s ∷ rs)

inserted :
    (r : List ℤ) (page : ℤ)
    → 0 < length r
    → (x : ℤ) × (y : ℤ) × (ys : List ℤ) × (insert_page r page ≡ returns (x ∷ y ∷ ys))
      × (take_page (x ∷ y ∷ ys) ≡ returns (page, r))
inserted [] page p = elim p [ ]
inserted (x ∷ []) page p = (page, x, [], refl, refl)
inserted (x ∷ y ∷ ys) page p =
    let (a, b, bs, run, back) = inserted (y ∷ ys) page (omega arith) in
    (x, a, b ∷ bs, rw run refl, rw back refl)

appended :
    (rows : List (List ℤ)) (page : ℤ)
    → All (λ r. 0 < length r) rows
    → (r : List ℤ) × (rs : List (List ℤ)) × (append_rows rows page ≡ returns (r ∷ rs))
      × (trim (r ∷ rs) ≡ r ∷ rs)
      × (take_last (r ∷ rs) ≡ returns (some page, without_empty_last rows))
unfolding append_rows take_last
appended [] page h = (page ∷ empty_row, [], refl, refl, refl)
appended (r ∷ []) page h =
    let (x, y, ys, run, back) = inserted r page h.0 in
    let long : leb (length (x ∷ y ∷ ys)) 1 ≡ false = ground arith in
    (x ∷ y ∷ ys, [], rw run refl, rw long refl, rw back refl)
appended (r ∷ s ∷ rs) page h =
    let (q, qs, run, whole, back) = appended (s ∷ rs) page h.1 in
    (r, q ∷ qs, rw run refl, ap (trim_onto r) whole, rw back refl)

-- A page that is appended to a table whose rows all have their sentinel is the one removed next. The
-- table is then as before, but for its last row if that had no page: it is dropped.
pub remove_last_page-append_page :
    (t : BlockTable) (page : ℤ)
    → All (λ r. 0 < length r) t.rows
    → is_sentinel page ≡ false
    → (u : BlockTable) × (append_page t page ≡ returns u)
      × (remove_last_page u ≡ returns (some page, record t { rows = without_empty_last t.rows }))
unfolding append_page remove_last_page
remove_last_page-append_page t page h p =
    let (r, rs, run, whole, back) = appended t.rows page h in
    (record t { rows = r ∷ rs }, rw p (rw run refl), rw whole (rw back refl))
