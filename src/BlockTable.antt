-- ===== src/BlockTable.antt =====
-- BlockTable of crates/mach-model/src/kv_block_pool.rs: one row of page numbers for each request,
-- with the padding sentinel -1 last.
pub mod Inverse
use machserve.Common.{
  ℕ, zero, suc, ◌+◌, ◌≡◌, Bool, true, false, not, Option, none, some, List, [], ◌∷◌, ◌++◌, length,
  leb, ◌==◌, ltb, if◌then◌else◌, Outcome, returns, panics, assert, ◌>>=◌, ◌>>◌,
}
use machserve.Common.Int.{ℤ, pos, negsuc, leb_ℤ}

pub record BlockTable : Type 0 where
  pub rows : List (List ℤ)
  pub available_tokens : ℤ

abbrev pub is_sentinel : ℤ → Bool
is_sentinel (pos n) = false
is_sentinel (negsuc n) = n == 0

abbrev pub is_page : ℤ → Bool
is_page (pos n) = ltb 0 n
is_page (negsuc n) = false

abbrev pub count_pages : List ℤ → ℕ
count_pages [] = 0
count_pages (p ∷ ps) = (if is_page p then 1 else 0) + count_pages ps

abbrev pub count_rows : List (List ℤ) → ℕ
count_rows [] = 0
count_rows (r ∷ rs) = count_pages r + count_rows rs

unfoldable pub num_rows : BlockTable → ℕ
num_rows t = length t.rows

unfoldable pub num_blocks : BlockTable → ℕ
num_blocks t = count_rows t.rows

unfoldable pub set_available_tokens : BlockTable → ℤ → Outcome BlockTable
set_available_tokens t tokens = do
  assert (leb_ℤ (pos 0) tokens)
  returns (record t { available_tokens = tokens })

abbrev pub empty_row : List ℤ
empty_row = negsuc 0 ∷ []

unfoldable pub begin_request : BlockTable → BlockTable
begin_request t = record t { rows = t.rows ++ empty_row ∷ [] }

-- `last.insert(last.len() - 1, page)`.
abbrev pub insert_page : List ℤ → ℤ → Outcome (List ℤ)
insert_page [] page = panics
insert_page (x ∷ []) page = returns (page ∷ x ∷ [])
insert_page (x ∷ y ∷ ys) page = do row ← insert_page (y ∷ ys) page; returns (x ∷ row)

-- The last row, which is made if there is none, takes the page.
unfoldable pub append_rows : List (List ℤ) → ℤ → Outcome (List (List ℤ))
append_rows [] page = do row ← insert_page empty_row page; returns (row ∷ [])
append_rows (r ∷ []) page = do row ← insert_page r page; returns (row ∷ [])
append_rows (r ∷ s ∷ rs) page = do rows ← append_rows (s ∷ rs) page; returns (r ∷ rows)

unfoldable pub append_page : BlockTable → ℤ → Outcome BlockTable
append_page t page = do
  assert (not (is_sentinel page))
  rows ← append_rows t.rows page
  returns (record t { rows = rows })

abbrev pub trim_onto : List ℤ → List (List ℤ) → List (List ℤ)
trim_onto r [] = if leb (length r) 1 then [] else r ∷ []
trim_onto r (s ∷ rs) = r ∷ s ∷ rs

-- The loop that pops trailing rows without pages.
abbrev pub trim : List (List ℤ) → List (List ℤ)
trim [] = []
trim (r ∷ rs) = trim_onto r (trim rs)

-- `last.remove(last.len() - 2)`.
abbrev pub take_page : List ℤ → Outcome (ℤ × List ℤ)
take_page [] = panics
take_page (x ∷ []) = panics
take_page (x ∷ y ∷ []) = returns (x, y ∷ [])
take_page (x ∷ y ∷ z ∷ zs) = do (page, row) ← take_page (y ∷ z ∷ zs); returns (page, x ∷ row)

abbrev pub unless_emptied : List ℤ → List (List ℤ)
unless_emptied r = if length r == 1 then [] else r ∷ []

unfoldable pub take_last : List (List ℤ) → Outcome (Option ℤ × List (List ℤ))
take_last [] = returns (none, [])
take_last (r ∷ []) = do (page, row) ← take_page r; returns (some page, unless_emptied row)
take_last (r ∷ s ∷ rs) = do (page, rows) ← take_last (s ∷ rs); returns (page, r ∷ rows)

unfoldable pub remove_last_page : BlockTable → Outcome (Option ℤ × BlockTable)
remove_last_page t = do
  (page, rows) ← take_last (trim t.rows)
  returns (page, record t { rows = rows })
