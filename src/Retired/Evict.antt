-- ===== src/Retired/Evict.antt =====
-- `evict_one_retired` of continuous.rs: what it frees is neither in a live table nor claimed.
use machserve.Common.{
  subst, list_eq_self, ℕ, ◌+◌, ◌≤◌, ◌<◌, ◌≡◌, refl, ap, ◌∙◌, ◌⊎◌, inl, inr, Bool, true, false, ◌&&◌,
  none, List, [], ◌∷◌, ◌++◌, take, ltb, ◌==◌, if◌then◌else◌, arith, Bool-cases, returns, ◌>>=◌,
}
use machserve.PagedKv.{GpuPagedTableBuilder, page_of}
use machserve.PagedKv.Plan.{IsBuilder}
use machserve.PagedKv.Evict.{evict_page-IsBuilder}
use machserve.Retired.{
  PagedEntry, PagedEngineState, referenced_pages, claimed_counts, freeable, evict_hashes,
  evict_entries, evict_one_retired,
}
use machserve.Retired.Shrunk.{
  Shrunk, Freed, and_parts, stays, follows, freed_one, freeable-unused, Freed-later,
}
use machserve.Retired.Claims.{
  times, times-append, Counts, release_claim-Counts, AreEntries, all_claims, claims_lem,
  claims_from-Counts,
}

module _ (referenced held : List ℕ) where
  evict_hashes-Shrunk :
      (hs kept : List (List ℕ)) (b : GpuPagedTableBuilder) (claimed : List (List ℕ × ℕ)) (freed : ℕ)
      → IsBuilder b held
      → Counts claimed (hs ++ kept)
      → (f : ℕ) × (c : GpuPagedTableBuilder) × (rest : List (List ℕ × ℕ)) × (evict_hashes b
            referenced claimed freed hs
          ≡ returns (f, c, rest))
        × Counts rest kept
        × Shrunk referenced held kept b c
        × (((f ≡ freed) × (c ≡ b)) ⊎ ((freed < f) × Freed referenced kept b c))
  unfolding evict_hashes
  evict_hashes-Shrunk [] kept b claimed freed w counts =
      (freed, b, claimed, refl, counts, stays referenced held kept b w, inl (refl, refl))
  evict_hashes-Shrunk (h ∷ hs) kept b claimed freed w counts =
      let (less, run, counted) = release_claim-Counts claimed h (hs ++ kept) counts in
      elim (Bool-cases ((times h (hs ++ kept) == 0) && freeable b referenced h)) [
        | inr t ↦
            let (f, c, rest, later, left, s, end) =
              evict_hashes-Shrunk hs kept b less freed w counted in
            (f, c, rest, rw run (rw t later), left, s, end)
        | inl t ↦ elim (evict_page-IsBuilder b h held w) [
          | inl (_, out) ↦
              let (f, c, rest, later, left, s, end) =
                evict_hashes-Shrunk hs kept b less freed w counted in
              (f, c, rest, rw run (rw t (rw out later)), left, s, end)
          | inr (p, m, at, out, v, after) ↦
              let (f, c, rest, later, left, s, end) =
                evict_hashes-Shrunk hs kept m less (freed + 1) v counted in
              let (last, free) =
                and_parts (times h (hs ++ kept) == 0) (freeable b referenced h) t in
              let split = times-append h hs kept in
              let gone : times h kept ≡ 0 = ground (arith, last, split) in
              let hidden : page_of m h ≡ none =
                after h ∙ ap (λ x. if x then none else page_of b h) (list_eq_self h) in
              let first : Freed referenced kept b m = record {
                hash = h;
                page = p;
                before = at;
                after = hidden;
                unused = freeable-unused referenced held b h p at free;
                unclaimed = gone;
              } in
              let more : freed < f = elim end [
                | inl (e, _) ↦ omega (arith, e)
                | inr (lt, _) ↦ omega (arith, lt)
              ] in
              (
                f,
                c,
                rest,
                rw run (rw t (rw out later)),
                left,
                follows referenced held kept kept b m c (λ k. omega arith)
                    (freed_one referenced held kept b m h p v at after gone free) s,
                inr (more, Freed-later referenced held kept kept b m c (λ k. omega arith) s first),
              )
        ]
      ]

  evict_entries-Shrunk :
      (entries : List PagedEntry) (b : GpuPagedTableBuilder) (claimed : List (List ℕ × ℕ))
      → IsBuilder b held
      → AreEntries entries
      → Counts claimed (all_claims entries)
      → (r : Bool) × (c : GpuPagedTableBuilder) × (rest : List PagedEntry) × (evict_entries b
            referenced claimed entries
          ≡ returns (r, c, rest))
        × Shrunk referenced held (all_claims rest) b c
        × ((k : List ℕ) → times k (all_claims rest) ≤ times k (all_claims entries))
        × (((r ≡ true) × Freed referenced (all_claims rest) b c)
            ⊎ ((r ≡ false) × (rest ≡ []) × (c ≡ b)))
  unfolding evict_entries
  evict_entries-Shrunk [] b claimed w fits counts =
      (false, b, [], refl, stays referenced held [] b w, (λ k. omega arith), inr (refl, refl, refl))
  evict_entries-Shrunk (e ∷ entries) b claimed w fits counts =
      let hs = take e.full_pages e.chain in
      let (f, m, less, run, left, s, done) =
        evict_hashes-Shrunk hs (all_claims entries) b claimed 0 w counts in
      let sub : (k : List ℕ) → times k (all_claims entries) ≤ times k (hs ++ all_claims entries) =
        λ k. let t = times-append k hs (all_claims entries) in omega (arith, t) in
      elim (Bool-cases (ltb 0 f)) [
        | inl t ↦ (
          true,
          m,
          entries,
          rw (claims_lem e fits.0) (rw run (rw (t, ◌>>=◌) refl)),
          s,
          sub,
          inl (
            refl,
            elim done [ inl (e, _) ↦ absurd (ground (arith, t, e)) | inr (_, freed) ↦ freed ],
          ),
        )
        | inr t ↦
            let (r, c, rest, later, z, sub', end) =
              evict_entries-Shrunk entries m less s.valid fits.1 left in
            let unchanged : m ≡ b = elim done [
              | inl (_, e) ↦ e
              | inr (lt, _) ↦ absurd (ground (arith, t, lt))
            ] in
            (
              r,
              c,
              rest,
              rw (claims_lem e fits.0) (rw run (rw (t, ◌>>=◌) later)),
              follows referenced held (all_claims entries) (all_claims rest) b m c sub' s z,
              (λ k. let x = sub k in let y = sub' k in omega (arith, x, y)),
              elim end [
                | inl (yes_one, freed) ↦
                    inl
                      (yes_one, subst (λ x. Freed referenced (all_claims rest) x c) unchanged freed)
                | inr (no_one, nil, kept) ↦ inr (no_one, nil, kept ∙ unchanged)
              ],
            )
      ]

-- Under the builder's invariant, where no retired entry has more full pages than hashes, the eviction
-- returns. Tables own the same pages as before; nothing is registered anew; the pages of the live tables
-- and those that the entries which are left claim stay registered. Either it returns true and a hash that was
-- registered is not any more, whose page no live table holds and which no entry that is left claims, or it
-- returns false, no entry is left and the builder is as before.
pub evict_one_retired-Shrunk :
    (s : PagedEngineState) (held : List ℕ)
    → IsBuilder s.builder held
    → AreEntries s.retired
    → (r : Bool) × (t : PagedEngineState) × (evict_one_retired s ≡ returns (r, t))
      × (t.tables ≡ s.tables)
      × Shrunk (referenced_pages s) held (all_claims t.retired) s.builder t.builder
      × (((r ≡ true) × Freed (referenced_pages s) (all_claims t.retired) s.builder t.builder)
          ⊎ ((r ≡ false) × (t.retired ≡ []) × (t.builder ≡ s.builder)))
unfolding evict_one_retired claimed_counts
evict_one_retired-Shrunk s held w fits =
    let (claimed, counted, counts) = claims_from-Counts [] s.retired [] fits (λ h. refl) in
    let (r, b, rest, run, z, _, end) =
      evict_entries-Shrunk (referenced_pages s) held s.retired s.builder claimed w fits counts in
    (r, record s { builder = b; retired = rest }, rw counted (rw run refl), refl, z, end)
