-- ===== src/StateReuse/Queue.antt =====
-- AnchorStore::insert of state_reuse.rs: first in, first out.
use machserve.Common.{
  ℕ, ◌+◌, ◌-◌, ◌<◌, ◌≡◌, ◌≢◌, refl, sym, ap, subst, ◌∙◌, inl, inr, true, false, some, List, [], ◌∷◌,
  ◌++◌, length, drop, leb, ◌==◌, if◌then◌else◌, arith, Bool-cases, All, All-map, All-append,
  Distinct,
}
use machserve.StateReuse.{
  Anchor, AnchorStore, anchor_bytes, find, erase, remove, evict_front, make_room, keep, insert,
}
use machserve.StateReuse.Store.{ids, total_bytes, IsStore, retain_fresh, erase_fresh}

abbrev oldest_gone : AnchorStore → List (ℕ × Anchor)
oldest_gone s = if leb s.max_anchors (length s.anchors) then drop 1 s.anchors else s.anchors

-- A store with room for one more.
record Room (s t : AnchorStore) : Type 0 where
  pub store : IsStore t
  pub anchors : t.anchors ≡ oldest_gone s
  pub space : length t.anchors < t.max_anchors
  pub next : t.next_id ≡ s.next_id
  pub bound : t.max_anchors ≡ s.max_anchors

abbrev canonical : List (ℕ × Anchor) → ℕ → ℕ → ℕ → AnchorStore
canonical xs n m b = record {
  anchors = xs;
  order = ids xs;
  next_id = n;
  max_anchors = m;
  bytes_held = b;
}

self_test : (k : ℕ) → (k == k) ≡ true
self_test k = ground arith

evicted :
    (k n m b : ℕ) (a : Anchor) (rest : List (ℕ × Anchor))
    → All (λ j. k ≢ j) (ids rest)
    → evict_front (canonical ((k, a) ∷ rest) n m b) (k ∷ ids rest)
      ≡ canonical rest n m (b - anchor_bytes a)
unfolding evict_front remove
evicted k n m b a rest apart =
    rw (self_test k, evict_front, remove)
      (rw (erase_fresh rest k apart) (rw (retain_fresh (ids rest) k apart) (rw (self_test k) refl)))

canonical-Room :
    (xs : List (ℕ × Anchor)) (n m b : ℕ)
    → IsStore (canonical xs n m b)
    → 0 < m
    → Room (canonical xs n m b) (make_room (canonical xs n m b))
unfolding make_room
canonical-Room xs n m b x pos = elim (Bool-cases (leb m (length xs))) [
  | inr p ↦
      rw (p, make_room)
        (record { store = x; anchors = rw p refl; space = ground arith; next = refl; bound = refl })
  | inl p ↦ rw (p, make_room) (full xs x p)
]
  where
    full :
        (ys : List (ℕ × Anchor))
        → IsStore (canonical ys n m b)
        → leb m (length ys) ≡ true
        → Room (canonical ys n m b) (evict_front (canonical ys n m b) (ids ys))
    full [] y p = absurd (ground arith)
    full ((k, a) ∷ rest) y p =
        subst (Room (canonical ((k, a) ∷ rest) n m b)) (sym (evicted k n m b a rest y.distinct.0))
          (record {
            store = record {
              ordered = refl;
              distinct = y.distinct.1;
              past = y.past.1;
              bytes = let held = y.bytes in omega (arith, held);
              room = let room = y.room in omega (arith, room);
            };
            anchors = rw p refl;
            space = let room = y.room in omega (arith, room);
            next = refl;
            bound = refl;
          })

make_room-Room : (s : AnchorStore) → IsStore s → 0 < s.max_anchors → Room s (make_room s)
make_room-Room s x pos =
    let path : s ≡ canonical s.anchors s.next_id s.max_anchors s.bytes_held =
      λ i. record s { order = x.ordered i } in
    subst (λ t. Room t (make_room t)) (sym path)
      (canonical-Room s.anchors s.next_id s.max_anchors s.bytes_held (subst IsStore path x) pos)

ids-push :
    (xs : List (ℕ × Anchor)) (k : ℕ) (a : Anchor) → ids (xs ++ (k, a) ∷ []) ≡ ids xs ++ k ∷ []
ids-push [] k a = refl
ids-push ((j, b) ∷ xs) k a = ap (λ r. j ∷ r) (ids-push xs k a)

Distinct-push : (xs : List ℕ) (k : ℕ) → Distinct xs → All (λ j. k ≢ j) xs → Distinct (xs ++ k ∷ [])
Distinct-push [] k d new = (tt, tt)
Distinct-push (x ∷ xs) k d new = (
  All-append (λ y. x ≢ y) xs (k ∷ []) d.0 ((λ e. let ne = new.0 in ne (sym e)), tt),
  Distinct-push xs k d.1 new.1,
)

total_bytes-push :
    (xs : List (ℕ × Anchor)) (k : ℕ) (a : Anchor)
    → total_bytes (xs ++ (k, a) ∷ []) ≡ total_bytes xs + anchor_bytes a
total_bytes-push [] k a = omega arith
total_bytes-push ((j, b) ∷ xs) k a = omega (arith, total_bytes-push xs k a)

length-push :
    (xs : List (ℕ × Anchor)) (k : ℕ) (a : Anchor) → length (xs ++ (k, a) ∷ []) ≡ length xs + 1
length-push [] k a = omega arith
length-push ((j, b) ∷ xs) k a = omega (arith, length-push xs k a)

find-push :
    (xs : List (ℕ × Anchor)) (k : ℕ) (a : Anchor)
    → All (λ j. k ≢ j) (ids xs)
    → find (xs ++ (k, a) ∷ []) k ≡ some a
find-push [] k a new = rw (self_test k) refl
find-push ((j, b) ∷ xs) k a new = elim (Bool-cases (j == k)) [
  | inl p ↦ absurd (let ne = new.0 in ne (ground arith))
  | inr p ↦ rw p (find-push xs k a new.1)
]

-- What holds of the store `t` after `a` was inserted into `s`.
pub record Queued (s : AnchorStore) (a : Anchor) (t : AnchorStore) : Type 0 where
  pub store : IsStore t
  pub anchors :
      t.anchors
      ≡ (if leb s.max_anchors (length s.anchors) then drop 1 s.anchors else s.anchors)
        ++ (s.next_id, record a { id = s.next_id }) ∷ []
  pub found : find t.anchors s.next_id ≡ some (record a { id = s.next_id })
  pub next : t.next_id ≡ s.next_id + 1

All-drop : (P : ℕ → Type 0) (xs : List (ℕ × Anchor)) → All P (ids xs) → All P (ids (drop 1 xs))
All-drop P [] h = tt
All-drop P ((k, a) ∷ xs) h = h.1

All-oldest_gone :
    (P : ℕ → Type 0) (s : AnchorStore) → All P (ids s.anchors) → All P (ids (oldest_gone s))
All-oldest_gone P s h = elim (Bool-cases (leb s.max_anchors (length s.anchors))) [
  | inl p ↦ rw p (All-drop P s.anchors h)
  | inr p ↦ rw p h
]

keep-Queued :
    (s t : AnchorStore) (a : Anchor)
    → IsStore s
    → Room (record s { next_id = s.next_id + 1 }) t
    → Queued s a (keep t (record a { id = s.next_id }))
unfolding keep
keep-Queued s t a x r =
    let b = record a { id = s.next_id } in
    let new : All (λ j. s.next_id ≢ j) (ids t.anchors) =
      subst (λ xs. All (λ j. s.next_id ≢ j) (ids xs)) (sym r.anchors)
        (All-oldest_gone (λ j. s.next_id ≢ j) s
          (All-map (λ k. k < s.next_id) (λ j. s.next_id ≢ j) (λ k lt e. omega (arith, lt, e))
            (ids s.anchors) x.past)) in
    let same : erase t.anchors s.next_id ++ (s.next_id, b) ∷ [] ≡ t.anchors ++ (s.next_id, b) ∷ [] =
      ap (λ xs. xs ++ (s.next_id, b) ∷ []) (erase_fresh t.anchors s.next_id new) in
    let pushed = ap ids same ∙ ids-push t.anchors s.next_id b in
    record {
      store = record {
        ordered = ap (λ o. o ++ s.next_id ∷ []) r.store.ordered ∙ sym pushed;
        distinct =
            subst Distinct (sym pushed)
              (Distinct-push (ids t.anchors) s.next_id r.store.distinct new);
        past = subst (All (λ k. k < t.next_id)) (sym pushed) (
            All-append (λ k. k < t.next_id) (ids t.anchors) (s.next_id ∷ []) r.store.past
              (omega (arith, r.next), tt));
        bytes =
            let held = r.store.bytes in
            let total = total_bytes-push t.anchors s.next_id b in
            let moved = ap total_bytes same in omega (arith, held, total, moved);
        room =
            let size = length-push t.anchors s.next_id b in
            let moved = ap length same in omega (arith, r.space, size, moved);
      };
      anchors = same ∙ ap (λ xs. xs ++ (s.next_id, b) ∷ []) r.anchors;
      found = ap (λ xs. find xs s.next_id) same ∙ find-push t.anchors s.next_id b new;
      next = r.next;
    }

counted-IsStore : (s : AnchorStore) → IsStore s → IsStore (record s { next_id = s.next_id + 1 })
counted-IsStore s x = record {
  ordered = x.ordered;
  distinct = x.distinct;
  past =
      All-map (λ k. k < s.next_id) (λ k. k < s.next_id + 1) (λ k lt. omega (arith, lt))
        (ids s.anchors) x.past;
  bytes = x.bytes;
  room = x.room;
}

-- Insertion into a store in order with room for at least one anchor returns the next id and keeps the
-- store in order: the oldest anchor is dropped if the store was full, and the new one, with its id,
-- is put last and found under the id.
pub insert-Queued :
    (s : AnchorStore) (a : Anchor)
    → IsStore s
    → 0 < s.max_anchors
    → (t : AnchorStore) × (insert s a ≡ (s.next_id, t)) × Queued s a t
unfolding insert
insert-Queued s a x pos =
    let some_room : (s.max_anchors == 0) ≡ false = ground arith in
    let counted = record s { next_id = s.next_id + 1 } in
    let t = keep (make_room counted) (record a { id = s.next_id }) in
    (
      t,
      rw some_room refl,
      keep-Queued s (make_room counted) a x (make_room-Room counted (counted-IsStore s x) pos),
    )
