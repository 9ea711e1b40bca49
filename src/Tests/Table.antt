-- ===== src/Tests/Table.antt =====
-- BlockTable of crates/mach-model/src/kv_block_pool.rs on two rows.
use machserve.Common.{◌≡◌, refl, some, [], ◌∷◌, returns, arith, ◌>>=◌}
use machserve.Common.Int.{pos, negsuc}
use machserve.BlockTable.{
  BlockTable, num_blocks, begin_request, append_rows, append_page, take_last, remove_last_page,
}
use machserve.BlockTable.Inverse.{without_empty_last, remove_last_page-append_page}

tables : Unit {0}
unfolding num_blocks begin_request append_rows append_page take_last remove_last_page
tables = tt

abbrev two_rows : BlockTable
two_rows = record {
  rows = (pos 4 ∷ pos 0 ∷ negsuc 0 ∷ []) ∷ (pos 9 ∷ negsuc 0 ∷ []) ∷ [];
  available_tokens = pos 0;
}

two_blocks : num_blocks two_rows ≡ 2
unfolding tables
two_blocks = refl

-- A row that was begun is lost when its only page is removed.
begun_row_lost :
    (do t ← append_page (begin_request two_rows) (pos 3); remove_last_page t)
    ≡ returns (some (pos 3), two_rows)
unfolding tables
begun_row_lost = refl

remove_last_page-append_page_example :
    (u : BlockTable) × (append_page two_rows (pos 3) ≡ returns u)
    × (remove_last_page u
        ≡ returns (some (pos 3), record two_rows { rows = without_empty_last two_rows.rows }))
remove_last_page-append_page_example =
    remove_last_page-append_page two_rows (pos 3) (omega arith, (omega arith, tt)) refl
