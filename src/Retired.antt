-- ===== src/Retired.antt =====
-- crates/mach-model/src/continuous.rs, the retired entries of PagedEngineState: finished sequences whose
-- pages stay cached until the pool needs one. A hash map is a list of pairs, a set the list of its
-- members; the count of a claim goes down from a positive number only.
pub mod Claims
pub mod Shrunk
pub mod Evict
use machserve.Common.{
  ℕ, zero, suc, ◌+◌, ◌-◌, ◌≡◌, Bool, true, false, not, ◌&&◌, Option, none, some, List, [], ◌∷◌,
  ◌++◌, length, take, list_eq, ltb, leb, ◌==◌, if◌then◌else◌, Outcome, returns, panics, assert,
  ◌>>=◌, ◌>>◌,
}
use machserve.PagedKv.{PagedTable, GpuPagedTableBuilder, lookup, page_of, evict_page}
use machserve.ExpertCache.{member}

pub record PagedEntry : Type 0 where
  pub chain : List (List ℕ)
  pub full_pages : ℕ

-- The fields that the retirement of pages reads and writes.
pub record PagedEngineState : Type 0 where
  pub builder : GpuPagedTableBuilder
  pub tables : List (Option PagedTable)
  pub retired : List PagedEntry

abbrev pub referenced_of : List (Option PagedTable) → List ℕ
referenced_of [] = []
referenced_of (none ∷ tables) = referenced_of tables
referenced_of (some t ∷ tables) = t.pages ++ referenced_of tables

unfoldable pub referenced_pages : PagedEngineState → List ℕ
referenced_pages s = referenced_of s.tables

-- `chain[..full_pages]`.
unfoldable pub claims : PagedEntry → Outcome (List (List ℕ))
claims e = do assert (leb e.full_pages (length e.chain)); returns (take e.full_pages e.chain)

-- `*claimed.entry(h).or_insert(0) += 1`.
abbrev pub add_claim : List (List ℕ × ℕ) → List ℕ → List (List ℕ × ℕ)
add_claim [] h = (h, 1) ∷ []
add_claim ((k, n) ∷ claimed) h =
    let rest = add_claim claimed h in if list_eq k h then (k, n + 1) ∷ claimed else (k, n) ∷ rest

abbrev pub add_claims : List (List ℕ × ℕ) → List (List ℕ) → List (List ℕ × ℕ)
add_claims claimed [] = claimed
add_claims claimed (h ∷ hs) = add_claims (add_claim claimed h) hs

unfoldable pub claims_from : List (List ℕ × ℕ) → List PagedEntry → Outcome (List (List ℕ × ℕ))
claims_from claimed [] = returns claimed
claims_from claimed (e ∷ entries) = do hs ← claims e; claims_from (add_claims claimed hs) entries

unfoldable pub claimed_counts : PagedEngineState → Outcome (List (List ℕ × ℕ))
claimed_counts s = claims_from [] s.retired

-- `*remaining -= 1`.
abbrev pub drop_claim : List (List ℕ × ℕ) → List ℕ → List (List ℕ × ℕ)
drop_claim [] h = []
drop_claim ((k, n) ∷ claimed) h =
    let rest = drop_claim claimed h in if list_eq k h then (k, n - 1) ∷ claimed else (k, n) ∷ rest

unfoldable pub release_claim : List (List ℕ × ℕ) → List ℕ → Outcome (ℕ × List (List ℕ × ℕ))
release_claim claimed h = elim (lookup claimed h) [
  | none ↦ panics
  | some n ↦ (do assert (ltb 0 n); returns (n - 1, drop_claim claimed h))
]

abbrev pub freeable : GpuPagedTableBuilder → List ℕ → List ℕ → Bool
freeable b referenced h = elim (page_of b h) [ none ↦ false | some p ↦ not (member referenced p) ]

-- The loop of `evict_entry_at` over the hashes of the entry.
unfoldable pub evict_hashes :
    GpuPagedTableBuilder
    → List ℕ
    → List (List ℕ × ℕ)
    → ℕ
    → List (List ℕ)
    → Outcome (ℕ × GpuPagedTableBuilder × List (List ℕ × ℕ))
evict_hashes b referenced claimed freed [] = returns (freed, b, claimed)
evict_hashes b referenced claimed freed (h ∷ hs) = do
  (remaining, claimed') ← release_claim claimed h
  (gone, b') ←
      if (remaining == 0) && freeable b referenced h then evict_page b h else returns (false, b)
  evict_hashes b' referenced claimed' (if gone then freed + 1 else freed) hs

-- `evict_entry_at` of the oldest entry, until a page is freed.
unfoldable pub evict_entries :
    GpuPagedTableBuilder
    → List ℕ
    → List (List ℕ × ℕ)
    → List PagedEntry
    → Outcome (Bool × GpuPagedTableBuilder × List PagedEntry)
evict_entries b referenced claimed [] = returns (false, b, [])
evict_entries b referenced claimed (e ∷ entries) = do
  hs ← claims e
  (freed, b', claimed') ← evict_hashes b referenced claimed 0 hs
  elim (ltb 0 freed) [
    | true ↦ returns (true, b', entries)
    | false ↦ evict_entries b' referenced claimed' entries
  ]

unfoldable pub evict_one_retired : PagedEngineState → Outcome (Bool × PagedEngineState)
evict_one_retired s = do
  claimed ← claimed_counts s
  (freed, b, entries) ← evict_entries s.builder (referenced_pages s) claimed s.retired
  returns (freed, record s { builder = b; retired = entries })
