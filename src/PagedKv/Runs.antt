-- ===== src/PagedKv/Runs.antt =====
-- `build_tiled_attn_runs` of paged_kv.rs. A row is a position and a slot; rows and tiles are counted
-- by natural numbers, and the narrowing of a descriptor to 32 bits is not modelled.
use machserve.Common.{
  ℕ, zero, suc, ◌+◌, ◌-◌, ◌^◌, ◌≤◌, ◌<◌, ◌≡◌, refl, sym, ap, subst, ◌∙◌, Bool, true, false, ◌&&◌,
  ◌||◌, List, [], ◌∷◌, ◌++◌, length, drop, get_elem?, Option, none, some, min, ltb, ◌==◌,
  if◌then◌else◌, arith, Bool-cases, inl, inr, get_elem?-drop, length-drop, Outcome, returns, assert,
  ◌>>◌,
}

abbrev pub Row : Type 0
Row = ℕ × ℕ

abbrev pub rows_of : List ℕ → List ℕ → List Row
rows_of [] slots = []
rows_of (l ∷ lens) [] = []
rows_of (l ∷ lens) (s ∷ slots) = (l, s) ∷ rows_of lens slots

-- The row after one at position `len`, where positions saturate.
abbrev pub next_len : ℕ → ℕ
next_len len = min (len + 1) (2 ^ 32 - 1)

-- How many rows go on with the run whose last row is at `len`.
abbrev pub run_len : ℕ → ℕ → List Row → ℕ
run_len len slot [] = 0
run_len len slot ((l, s) ∷ rows) =
    let more = run_len l slot rows in if (s == slot) && (l == next_len len) then suc more else 0

-- A tile is `[row0, q_start, q_take]`.
abbrev pub Tile : Type 0
Tile = ℕ × ℕ × ℕ

-- The tiles of one run; a fuel of the rows that are left is enough.
unfoldable pub tiles_from : ℕ → ℕ → ℕ → ℕ → ℕ → List Tile
tiles_from zero row0 q_start q_len q_block = []
tiles_from (suc fuel) row0 q_start q_len q_block =
    let q_take = min q_block (q_len - q_start) in
    let rest = tiles_from fuel row0 (q_start + q_take) q_len q_block in
    if ltb q_start q_len then (row0, q_start, q_take) ∷ rest else []

-- The runs from row `i` on; a fuel of the rows that are left is enough.
unfoldable pub runs_from : ℕ → ℕ → ℕ → List Row → List Tile
runs_from zero i q_block rows = []
runs_from (suc fuel) i q_block [] = []
runs_from (suc fuel) i q_block ((l, s) ∷ rows) =
    let more = run_len l s rows in
    let q_len = suc more in
    tiles_from q_len i 0 q_len q_block ++ runs_from fuel (i + q_len) q_block (drop more rows)

abbrev pub any_multi : List Tile → Bool
any_multi [] = false
any_multi ((_, _, q_take) ∷ tiles) = ltb 1 q_take || any_multi tiles

unfoldable pub build_tiled_attn_runs : List ℕ → List ℕ → ℕ → Outcome (List Tile × Bool)
build_tiled_attn_runs lens slots q_block = do
  assert (length lens == length slots)
  assert (ltb 0 q_block)
  let runs = runs_from (length lens) 0 q_block (rows_of lens slots)
  returns (runs, any_multi runs)

-- The rows from `k` on, `n` in all, are adjacent rows of one slot.
abbrev pub Adjacent : List Row → ℕ → ℕ → Type 0
Adjacent all k n =
    (j l s : ℕ)
    → suc j < n
    → get_elem? all (k + j) ≡ some (l, s)
    → get_elem? all (k + suc j) ≡ some (next_len l, s)

-- The tiles stand for the rows from `k` to `e`, one after the other.
abbrev pub Covers : List Row → ℕ → ℕ → List Tile → ℕ → Type 0
Covers all q_block k [] e = k ≡ e
Covers all q_block k ((row0, q_start, q_take) ∷ tiles) e =
    (row0 + q_start ≡ k)
    × (0 < q_take)
    × (q_take ≤ q_block)
    × Adjacent all k q_take
    × Covers all q_block (k + q_take) tiles e

module _ (all : List Row) (q_block : ℕ) (pos : 0 < q_block) where
  Covers-append :
      (k m e : ℕ) (ts us : List Tile)
      → Covers all q_block k ts m
      → Covers all q_block m us e
      → Covers all q_block k (ts ++ us) e
  Covers-append k m e [] us c d = subst (λ n. Covers all q_block n us e) (sym c) d
  Covers-append k m e ((r, s, t) ∷ ts) us (here, more, few, adj, c) d =
      (here, more, few, adj, Covers-append (k + t) m e ts us c d)

  tiles_from-Covers :
      (fuel i q_start q_len : ℕ)
      → q_len ≤ q_start + fuel
      → q_start ≤ q_len
      → Adjacent all i q_len
      → Covers all q_block (i + q_start) (tiles_from fuel i q_start q_len q_block) (i + q_len)
  unfolding tiles_from
  tiles_from-Covers zero i q_start q_len enough le adj = omega (arith, enough, le)
  tiles_from-Covers (suc fuel) i q_start q_len enough le adj =
      elim (Bool-cases (ltb q_start q_len)) [
        | inl p ↦
            let lt : q_start < q_len = ground arith in
            let q_take = min q_block (q_len - q_start) in
            let rest =
              tiles_from-Covers fuel i (q_start + q_take) q_len (omega (arith, enough, lt, pos))
                (omega (arith, lt)) adj in
            let place : i + (q_start + q_take) ≡ i + q_start + q_take = omega arith in
            rw (p, tiles_from)
              (
                refl,
                omega (arith, lt, pos),
                omega arith,
                within q_take (omega (arith, lt)),
                subst
                    (λ n.
                      Covers all q_block n (tiles_from fuel i (q_start + q_take) q_len q_block)
                        (i + q_len))
                    place rest,
              )
        | inr p ↦ rw (p, tiles_from) (ground (arith, le))
      ]
    where
      within : (n : ℕ) → q_start + n ≤ q_len → Adjacent all (i + q_start) n
      within n fits j l s lt at =
          let here : i + q_start + j ≡ i + (q_start + j) = omega arith in
          let there : i + q_start + suc j ≡ i + suc (q_start + j) = omega arith in
          ap (get_elem? all) there
          ∙ adj (q_start + j) l s (omega (arith, lt, fits)) (sym (ap (get_elem? all) here) ∙ at)

run_len-bound : (l s : ℕ) (rows : List Row) → run_len l s rows ≤ length rows
run_len-bound l s [] = omega arith
run_len-bound l s ((m, t) ∷ rows) = let rest = run_len-bound m s rows in ground (arith, rest)

pair_of : (x y : Row) → some x ≡ some y → (x.0 ≡ y.0) × (x.1 ≡ y.1)
pair_of x y h = (ap (λ o. first o) h, ap (λ o. second o) h)
  where
    first : Option Row → ℕ
    first (some r) = r.0
    first none = 0

    second : Option Row → ℕ
    second (some r) = r.1
    second none = 0

run_len-next :
    (l s : ℕ) (rows : List Row) (j m t : ℕ)
    → j < run_len l s rows
    → get_elem? ((l, s) ∷ rows) j ≡ some (m, t)
    → get_elem? ((l, s) ∷ rows) (suc j) ≡ some (next_len m, t)
run_len-next l s [] j m t lt at = absurd (omega (arith, lt))
run_len-next l s ((l', s') ∷ rows) j m t lt at =
    elim (Bool-cases ((s' == s) && (l' == next_len l))) [
      | inl p ↦
          let slot : s' ≡ s = ground arith in
          let place : l' ≡ next_len l = ground arith in
          let shorter : j < suc (run_len l' s rows) = ground (arith, lt, p) in
          by_place (run_len-next l' s rows) j m t shorter at slot place
      | inr p ↦ absurd (ground (arith, lt, p))
    ]
  where
    by_place :
        ((i k u : ℕ)
          → i < run_len l' s rows
          → get_elem? ((l', s) ∷ rows) i ≡ some (k, u)
          → get_elem? ((l', s) ∷ rows) (suc i) ≡ some (next_len k, u))
        → (i k u : ℕ) → i < suc (run_len l' s rows)
        → get_elem? ((l, s) ∷ (l', s') ∷ rows) i ≡ some (k, u)
        → s' ≡ s
        → l' ≡ next_len l
        → get_elem? ((l', s') ∷ rows) i ≡ some (next_len k, u)
    by_place rest zero k u less here slot place =
        let both = pair_of (l, s) (k, u) here in
        ap some (
          ap (λ x. (x, s')) (place ∙ ap next_len both.0)
          ∙ ap (λ x. (next_len k, x)) (slot ∙ both.1))
    by_place rest (suc i) k u less here slot place =
        let back = ap (λ x. get_elem? ((l', x) ∷ rows) i) slot in
        let front = ap (λ x. get_elem? ((l', x) ∷ rows) (suc i)) slot in
        front ∙ rest i k u (omega (arith, less)) (sym back ∙ here)

module _ (all : List Row) (q_block : ℕ) (pos : 0 < q_block) where
  runs_from-Covers :
      (fuel i : ℕ) (rows : List Row)
      → length rows ≤ fuel
      → ((j : ℕ) → get_elem? all (i + j) ≡ get_elem? rows j)
      → Covers all q_block i (runs_from fuel i q_block rows) (i + length rows)
  unfolding runs_from
  runs_from-Covers zero i [] enough same = omega arith
  runs_from-Covers zero i (r ∷ rows) enough same = absurd (omega (arith, enough))
  runs_from-Covers (suc fuel) i [] enough same = omega arith
  runs_from-Covers (suc fuel) i ((l, s) ∷ rows) enough same =
      let more = run_len l s rows in
      let bound = run_len-bound l s rows in
      let left = length-drop more rows in
      let adj : Adjacent all i (suc more) = λ j m t lt at.
        same (suc j) ∙ run_len-next l s rows j m t (omega (arith, lt)) (sym (same j) ∙ at) in
      let first =
        tiles_from-Covers all q_block pos (suc more) i 0 (suc more) (omega arith) (omega arith)
          adj in
      let rest =
        runs_from-Covers fuel (i + suc more) (drop more rows) (omega (arith, enough, left)) (λ j.
          let place : i + suc more + j ≡ i + suc (more + j) = omega arith in
          ap (get_elem? all) place ∙ same (suc (more + j)) ∙ sym (get_elem?-drop more rows j)) in
      let end : i + suc more + length (drop more rows) ≡ i + suc (length rows) =
        omega (arith, left, bound) in
      let start : i + 0 ≡ i = omega arith in
      Covers-append all q_block pos i (i + suc more) (i + suc (length rows))
        (tiles_from (suc more) i 0 (suc more) q_block)
        (runs_from fuel (i + suc more) q_block (drop more rows))
        (subst
          (λ n. Covers all q_block n (tiles_from (suc more) i 0 (suc more) q_block) (i + suc more))
          start first)
        (subst
          (λ n.
            Covers all q_block (i + suc more)
              (runs_from fuel (i + suc more) q_block (drop more rows)) n)
          end rest)

rows_of-length :
    (lens slots : List ℕ) → length lens ≡ length slots → length (rows_of lens slots) ≡ length lens
rows_of-length [] slots same = refl
rows_of-length (l ∷ lens) [] same = absurd (omega (arith, same))
rows_of-length (l ∷ lens) (s ∷ slots) same =
    ap suc (rows_of-length lens slots (omega (arith, same)))

-- With as many positions as slots and a block size above 0 the tiles cover all rows in order; none is
-- empty or above the block size, and the rows of a tile are of one slot, at consecutive positions.
pub build_tiled_attn_runs-Covers :
    (lens slots : List ℕ) (q_block : ℕ)
    → length lens ≡ length slots
    → 0 < q_block
    → (runs : List Tile) × (build_tiled_attn_runs lens slots q_block
        ≡ returns (runs, any_multi runs))
      × Covers (rows_of lens slots) q_block 0 runs (length lens)
unfolding build_tiled_attn_runs
build_tiled_attn_runs-Covers lens slots q_block same pos =
    let equal : (length lens == length slots) ≡ true = ground arith in
    let some_rows : ltb 0 q_block ≡ true = ground arith in
    let all = rows_of lens slots in
    let size = rows_of-length lens slots same in
    let covers =
      runs_from-Covers all q_block pos (length lens) 0 all (omega (arith, size))
        (λ j. ap (get_elem? all) (omega arith)) in
    let end : 0 + length all ≡ length lens = omega (arith, size) in
    (
      runs_from (length lens) 0 q_block all,
      rw equal (rw some_rows refl),
      subst (λ n. Covers all q_block 0 (runs_from (length lens) 0 q_block all) n) end covers,
    )
