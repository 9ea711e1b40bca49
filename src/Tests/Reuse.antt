-- ===== src/Tests/Reuse.antt =====
-- crates/mach-model/src/state_reuse.rs on a store of two anchors.
use machserve.Common.{
  ◌∙◌, false, ◌==◌, suc, ap, sym, Option, ℕ, zero, suc, ◌≡◌, refl, ◌⊎◌, get_elem?, List, [], ◌∷◌,
  some, none, returns, arith,
}
use machserve.StateReuse.{
  Anchor, AnchorStore, StateReuse, ReusedPrefix, find, get, remove, evict_front, make_room, keep,
  insert, best_of, looked_up, hit, find_reusable,
}
use machserve.StateReuse.Store.{IsStore}
use machserve.StateReuse.Queue.{Queued, insert-Queued}
use machserve.StateReuse.Match.{Covers, Iterates, Reused, find_reusable-Reused}

reuse : Unit {0}
unfolding get remove evict_front make_room keep insert best_of find_reusable
reuse = tt

-- An anchor for a prefix of `n + 1` tokens.
abbrev anchor : ℕ → ℕ → List ℕ → Anchor
anchor id n tokens = record {
  id = id;
  token_idx = n;
  tokens = tokens;
  kv = record { layers = (1 ∷ 2 ∷ [], 3 ∷ []) ∷ [] };
  hidden = 8 ∷ [];
}

abbrev two_kept : AnchorStore
two_kept = record {
  anchors = (1, anchor 1 0 (5 ∷ [])) ∷ (2, anchor 2 1 (5 ∷ 6 ∷ [])) ∷ [];
  order = 1 ∷ 2 ∷ [];
  next_id = 3;
  max_anchors = 2;
  bytes_held = 26;
}

two_kept-IsStore : IsStore two_kept
two_kept-IsStore = record {
  ordered = refl;
  distinct = (((λ e. omega (arith, e)), tt), (tt, tt));
  past = (omega arith, (omega arith, tt));
  bytes = refl;
  room = omega arith;
}

abbrev matcher : StateReuse
matcher = record { store = two_kept; stats = record { lookups = 0; hits = 0; tokens_reused = 0 } }

-- The longer of two prefixes wins; a prefix that is the whole prompt is not taken.
longest_wins :
    find_reusable matcher two_kept.anchors (5 ∷ 6 ∷ 7 ∷ [])
    ≡ returns (
      some (record { anchor_id = 2; prefix_len = 2; hidden = 8 ∷ [] }),
      record { store = two_kept; stats = record { lookups = 1; hits = 1; tokens_reused = 2 } },
    )
unfolding reuse
longest_wins = refl

whole_prompt :
    find_reusable matcher two_kept.anchors (5 ∷ 6 ∷ [])
    ≡ returns (
      some (record { anchor_id = 1; prefix_len = 1; hidden = 8 ∷ [] }),
      record { store = two_kept; stats = record { lookups = 1; hits = 1; tokens_reused = 1 } },
    )
unfolding reuse
whole_prompt = refl

key_of :
    {k j : ℕ} {a b : Anchor} → ◌≡◌ {A = Option (ℕ × Anchor)} (some (k, a)) (some (j, b)) → k ≡ j
key_of h = cc

value_of :
    {k j : ℕ} {a b : Anchor} → ◌≡◌ {A = Option (ℕ × Anchor)} (some (k, a)) (some (j, b)) → a ≡ b
value_of h = cc

insert-Queued_example :
    (t : AnchorStore) × (insert two_kept (anchor 0 2 (5 ∷ 6 ∷ 7 ∷ [])) ≡ (3, t))
    × Queued two_kept (anchor 0 2 (5 ∷ 6 ∷ 7 ∷ [])) t
insert-Queued_example =
    insert-Queued two_kept (anchor 0 2 (5 ∷ 6 ∷ 7 ∷ [])) two_kept-IsStore (omega arith)

-- The map may be visited from the younger anchor to the older.
abbrev visited : List (ℕ × Anchor)
visited = (2, anchor 2 1 (5 ∷ 6 ∷ [])) ∷ (1, anchor 1 0 (5 ∷ [])) ∷ []

abbrev keyed : ℕ → Option Anchor → Option (ℕ × Anchor)
keyed id none = none
keyed id (some a) = some (id, a)

visited-Iterates : Iterates visited two_kept.anchors
visited-Iterates = record { entries = shown; every = at }
  where
    shown :
        (i id : ℕ) (a : Anchor)
        → get_elem? visited i ≡ some (id, a)
        → find two_kept.anchors id ≡ some a
    shown zero id a h = let e = key_of h in let v = value_of h in rw (sym e) (ap some v)
    shown (suc zero) id a h = let e = key_of h in let v = value_of h in rw (sym e) (ap some v)
    shown (suc (suc i)) id a h = cc

    at :
        (id : ℕ) (a : Anchor)
        → find two_kept.anchors id ≡ some a
        → (i : ℕ) × (get_elem? visited i ≡ some (id, a))
    at zero a h = cc
    at (suc zero) a h = (1, ap (λ o. keyed 1 o) h)
    at (suc (suc zero)) a h = (0, ap (λ o. keyed 2 o) h)
    at (suc (suc (suc n))) a h =
        let not_one : (1 == suc (suc (suc n))) ≡ false = ground arith in
        let not_two : (2 == suc (suc (suc n))) ≡ false = ground arith in
        let missing : find two_kept.anchors (suc (suc (suc n))) ≡ none =
          rw not_one (rw not_two refl) in
        let no : none ≡ some a = sym missing ∙ h in cc

find_reusable-Reused_example :
    (((id : ℕ) (a : Anchor) → find two_kept.anchors id ≡ some a → Covers (5 ∷ 6 ∷ 7 ∷ []) a → ⊥)
      × (find_reusable matcher visited (5 ∷ 6 ∷ 7 ∷ []) ≡ returns (none, looked_up matcher)))
    ⊎ ((p : ReusedPrefix) × (find_reusable matcher visited (5 ∷ 6 ∷ 7 ∷ [])
          ≡ returns (some p, hit matcher p.prefix_len))
        × Reused matcher (5 ∷ 6 ∷ 7 ∷ []) p)
find_reusable-Reused_example =
    find_reusable-Reused matcher visited (5 ∷ 6 ∷ 7 ∷ []) visited-Iterates
