-- ===== src/StateReuse.antt =====
-- crates/mach-model/src/state_reuse.rs: a bounded store of anchors and the longest-prefix match.
-- The hash map is the list of its pairs; the order in which a match visits them is the map's own choice
-- and an argument of it. Bytes and the bits of floats are natural numbers; sums do not overflow.
pub mod Store
pub mod Queue
pub mod Match
use machserve.Common.{
  ℕ, zero, suc, ◌+◌, ◌-◌, ◌*◌, ◌≡◌, Bool, true, false, ◌&&◌, not, Option, none, some, List, [], ◌∷◌,
  ◌++◌, map, length, take, list_eq, ltb, leb, ◌==◌, if◌then◌else◌, Outcome, returns, panics, ◌>>=◌,
}

pub record KvSnapshot : Type 0 where
  pub layers : List (List ℕ × List ℕ)

abbrev pub layers_bytes : List (List ℕ × List ℕ) → ℕ
layers_bytes [] = 0
layers_bytes ((k, v) ∷ layers) = length k + length v + layers_bytes layers

pub record Anchor : Type 0 where
  pub id : ℕ
  pub token_idx : ℕ
  pub tokens : List ℕ
  pub kv : KvSnapshot
  pub hidden : List ℕ

abbrev pub anchor_bytes : Anchor → ℕ
anchor_bytes a = layers_bytes a.kv.layers + length a.tokens * 4 + length a.hidden * 4

pub record AnchorStore : Type 0 where
  pub anchors : List (ℕ × Anchor)
  pub order : List ℕ
  pub next_id : ℕ
  pub max_anchors : ℕ
  pub bytes_held : ℕ

abbrev pub find : List (ℕ × Anchor) → ℕ → Option Anchor
find [] id = none
find ((k, a) ∷ rest) id = if k == id then some a else find rest id

abbrev pub erase : List (ℕ × Anchor) → ℕ → List (ℕ × Anchor)
erase [] id = []
erase ((k, a) ∷ rest) id = let others = erase rest id in if k == id then others else (k, a) ∷ others

-- `order.retain(|&x| x != id)`.
abbrev pub retain : List ℕ → ℕ → List ℕ
retain [] id = []
retain (x ∷ xs) id = let others = retain xs id in if x == id then others else x ∷ others

unfoldable pub new : ℕ → AnchorStore
new max_anchors = record {
  anchors = [];
  order = [];
  next_id = 1;
  max_anchors = max_anchors;
  bytes_held = 0;
}

unfoldable pub get : AnchorStore → ℕ → Option Anchor
get s id = find s.anchors id

unfoldable pub remove : AnchorStore → ℕ → AnchorStore
remove s id = elim (find s.anchors id) [
  | none ↦ s
  | some a ↦ record s {
    anchors = erase s.anchors id;
    bytes_held = s.bytes_held - anchor_bytes a;
    order = retain s.order id;
  }
]

-- The eviction of `insert` when the store is full.
unfoldable pub evict_front : AnchorStore → List ℕ → AnchorStore
evict_front s [] = s
evict_front s (oldest ∷ order) = remove (record s { order = order }) oldest

unfoldable pub make_room : AnchorStore → AnchorStore
make_room s = if leb s.max_anchors (length s.anchors) then evict_front s s.order else s

-- `insert` of an anchor that has its id.
unfoldable pub keep : AnchorStore → Anchor → AnchorStore
keep s anchor = record s {
  bytes_held = s.bytes_held + anchor_bytes anchor;
  anchors = erase s.anchors anchor.id ++ (anchor.id, anchor) ∷ [];
  order = s.order ++ anchor.id ∷ [];
}

unfoldable pub insert : AnchorStore → Anchor → ℕ × AnchorStore
insert s anchor₀ =
    let id = s.next_id in
    let anchor = record anchor₀ { id = id } in
    let counted = record s { next_id = s.next_id + 1 } in
    (id, (if s.max_anchors == 0 then counted else keep (make_room counted) anchor))

unfoldable pub clear : AnchorStore → AnchorStore
clear s = record s { anchors = []; order = []; bytes_held = 0 }

unfoldable pub len : AnchorStore → ℕ
len s = length s.anchors

pub record ReusedPrefix : Type 0 where
  pub anchor_id : ℕ
  pub prefix_len : ℕ
  pub hidden : List ℕ

pub record ReuseStats : Type 0 where
  pub lookups : ℕ
  pub hits : ℕ
  pub tokens_reused : ℕ

pub record StateReuse : Type 0 where
  pub store : AnchorStore
  pub stats : ReuseStats

abbrev pub beats : ℕ → Option (ℕ × ℕ) → Bool
beats prefix_len none = true
beats prefix_len (some (id, best)) = ltb best prefix_len

-- The test of `find_reusable` for one anchor.
abbrev pub improves : List ℕ → Option (ℕ × ℕ) → Anchor → Bool
improves tokens best a =
    ltb (a.token_idx + 1) (length tokens)
    && (beats (a.token_idx + 1) best && list_eq (take (a.token_idx + 1) tokens) a.tokens)

unfoldable pub best_of : List ℕ → Option (ℕ × ℕ) → List (ℕ × Anchor) → Option (ℕ × ℕ)
best_of tokens best [] = best
best_of tokens best ((id, a) ∷ rest) =
    best_of tokens (if improves tokens best a then some (id, a.token_idx + 1) else best) rest

-- `self.store.anchors[&anchor_id]`.
abbrev pub anchor_of : Option Anchor → Outcome Anchor
anchor_of none = panics
anchor_of (some a) = returns a

abbrev pub looked_up : StateReuse → StateReuse
looked_up r = record r { stats = record r.stats { lookups = r.stats.lookups + 1 } }

abbrev pub hit : StateReuse → ℕ → StateReuse
hit r prefix_len = record r {
  stats = record r.stats {
    lookups = r.stats.lookups + 1;
    hits = r.stats.hits + 1;
    tokens_reused = r.stats.tokens_reused + prefix_len;
  };
}

-- `visited` is what the iteration over the hash map yields, in its order.
unfoldable pub find_reusable :
    StateReuse → List (ℕ × Anchor) → List ℕ → Outcome (Option ReusedPrefix × StateReuse)
find_reusable r visited tokens = elim (best_of tokens none visited) [
  | none ↦ returns (none, looked_up r)
  | some (anchor_id, prefix_len) ↦ (do
    a ← anchor_of (find r.store.anchors anchor_id)
    returns (
      some (record { anchor_id = anchor_id; prefix_len = prefix_len; hidden = a.hidden }),
      hit r prefix_len,
    ))
]

unfoldable pub insert_anchor : StateReuse → Anchor → ℕ × StateReuse
insert_anchor r anchor = let (id, store) = insert r.store anchor in (id, record r { store = store })

unfoldable pub reset_stats : StateReuse → StateReuse
reset_stats r = record r { stats = record { lookups = 0; hits = 0; tokens_reused = 0 } }
