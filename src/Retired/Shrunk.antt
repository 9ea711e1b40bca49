-- ===== src/Retired/Shrunk.antt =====
-- What one round of `evict_entry_at` of continuous.rs may free, and what it leaves.
use machserve.Common.{
  Option-cases, ℕ, ◌≤◌, ◌<◌, ◌≡◌, refl, sym, ap, ◌∙◌, inl, inr, Bool, true, false, not, ◌&&◌, none,
  some, List, list_eq, list_eq_sound, if◌then◌else◌, arith, Bool-cases,
}
use machserve.ExpertCache.{member}
use machserve.PagedKv.{GpuPagedTableBuilder, page_of}
use machserve.PagedKv.Plan.{IsBuilder}
use machserve.Retired.{freeable}
use machserve.Retired.Claims.{times}

-- The pages that may be freed were: nothing is registered anew, what a live table holds stays, and so
-- does what the hashes `kept` claim.
pub record Shrunk (referenced held : List ℕ) (kept : List (List ℕ)) (b c : GpuPagedTableBuilder)
    : Type 0 where
  pub valid : IsBuilder c held
  pub live :
      (k : List ℕ) (p : ℕ)
      → page_of b k ≡ some p
      → member referenced p ≡ true
      → page_of c k ≡ some p
  pub claimed : (k : List ℕ) → 0 < times k kept → page_of c k ≡ page_of b k
  pub old : (k : List ℕ) (p : ℕ) → page_of c k ≡ some p → page_of b k ≡ some p

-- A hash that was registered is not any more; no live table holds its page, and no hash of `kept` claims it.
pub record Freed (referenced : List ℕ) (kept : List (List ℕ)) (b c : GpuPagedTableBuilder)
    : Type 0 where
  pub hash : List ℕ
  pub page : ℕ
  pub before : page_of b hash ≡ some page
  pub after : page_of c hash ≡ none
  pub unused : member referenced page ≡ false
  pub unclaimed : times hash kept ≡ 0

none-some : {p : ℕ} → none ≡ some p → ⊥
none-some h = cc

false-true : false ≡ true → ⊥
false-true h = cc

some_same : {p q : ℕ} → some p ≡ some q → p ≡ q
some_same h = cc

pub and_parts : (x y : Bool) → (x && y) ≡ true → (x ≡ true) × (y ≡ true)
and_parts true true h = (refl, refl)
and_parts true false h = cc
and_parts false y h = cc

module _ (referenced held : List ℕ) where
  pub stays :
      (kept : List (List ℕ)) (b : GpuPagedTableBuilder)
      → IsBuilder b held
      → Shrunk referenced held kept b b
  stays kept b w = record {
    valid = w;
    live = λ k p at _. at;
    claimed = λ k _. refl;
    old = λ k p at. at;
  }

  pub follows :
      (kept fewer : List (List ℕ)) (b c d : GpuPagedTableBuilder)
      → ((k : List ℕ) → times k fewer ≤ times k kept)
      → Shrunk referenced held kept b c
      → Shrunk referenced held fewer c d
      → Shrunk referenced held fewer b d
  follows kept fewer b c d sub r s = record {
    valid = s.valid;
    live = λ k p at here. s.live k p (r.live k p at here) here;
    claimed = λ k pos. s.claimed k pos ∙ r.claimed k (let le = sub k in omega (arith, pos, le));
    old = λ k p at. r.old k p (s.old k p at);
  }

  -- One page that is freed.
  pub freed_one :
      (kept : List (List ℕ)) (b c : GpuPagedTableBuilder) (h : List ℕ) (p : ℕ)
      → IsBuilder c held
      → page_of b h ≡ some p
      → ((k : List ℕ) → page_of c k ≡ (if list_eq h k then none else page_of b k))
      → times h kept ≡ 0
      → freeable b referenced h ≡ true
      → Shrunk referenced held kept b c
  freed_one kept b c h p w at after gone free = record {
    valid = w;
    live = λ k q here used. after k ∙ elim (Bool-cases (list_eq h k)) [
      | inl t ↦ absurd (
          let same = ap (page_of b) (list_eq_sound h k t) in
          let pq : p ≡ q = some_same (sym at ∙ same ∙ here) in
          let unused : freeable b referenced h ≡ not (member referenced p) =
            rw (at, freeable) refl in
          let no : freeable b referenced h ≡ false =
            unused ∙ ap (λ x. not (member referenced x)) pq ∙ ap not used in
          false-true (sym no ∙ free))
      | inr t ↦ rw t here
    ];
    claimed = λ k pos. after k ∙ elim (Bool-cases (list_eq h k)) [
      | inl t ↦
          absurd
            (let z = ap (λ x. times x kept) (list_eq_sound h k t) in omega (arith, z, gone, pos))
      | inr t ↦ rw t refl
    ];
    old = λ k q here. elim (Bool-cases (list_eq h k)) [
      | inl t ↦ absurd (
          let hidden : (if list_eq h k then none else page_of b k) ≡ none = rw t refl in
          none-some (sym hidden ∙ sym (after k) ∙ here))
      | inr t ↦
          let shown : (if list_eq h k then none else page_of b k) ≡ page_of b k = rw t refl in
          sym shown ∙ sym (after k) ∙ here
    ];
  }

  pub not_anew :
      (kept : List (List ℕ)) (b c : GpuPagedTableBuilder) (h : List ℕ)
      → Shrunk referenced held kept b c
      → page_of b h ≡ none
      → page_of c h ≡ none
  not_anew kept b c h s at = elim (Option-cases (page_of c h)) [
    | inl p ↦ p
    | inr (q, p) ↦ absurd (none-some (sym at ∙ s.old h q p))
  ]

  pub freeable-unused :
      (b : GpuPagedTableBuilder) (h : List ℕ) (p : ℕ)
      → page_of b h ≡ some p
      → freeable b referenced h ≡ true
      → member referenced p ≡ false
  freeable-unused b h p at free =
      let shown : freeable b referenced h ≡ not (member referenced p) = rw (at, freeable) refl in
      not_true (member referenced p) (sym shown ∙ free)
    where
      not_true : (x : Bool) → not x ≡ true → x ≡ false
      not_true true q = cc
      not_true false q = refl

  -- What is freed later was registered before.
  pub Freed-later :
      (kept fewer : List (List ℕ)) (b m c : GpuPagedTableBuilder)
      → ((k : List ℕ) → times k fewer ≤ times k kept)
      → Shrunk referenced held fewer m c
      → Freed referenced kept b m
      → Freed referenced fewer b c
  Freed-later kept fewer b m c sub s f = record {
    hash = f.hash;
    page = f.page;
    before = f.before;
    after = not_anew fewer m c f.hash s f.after;
    unused = f.unused;
    unclaimed = let le = sub f.hash in let z = f.unclaimed in omega (arith, le, z);
  }
