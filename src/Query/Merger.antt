-- ===== src/Query/Merger.antt =====
-- internal/query/merger.go: the merge of the sorted answers of several blocks. The package
-- `container/heap` is a parameter, with what its documentation promises.
mod Runs
pub mod Sorted
pub mod Listed
use mathlib.Core.List.{Mem, Perm}
use bbdb.Base.{
  ℕ, zero, suc, ◌+◌, ◌≡◌, ◌⊎◌, Bool, true, false, List, [], ◌∷◌, ◌++◌, Option, none, some, ltb,
  ◌==◌, if◌then◌else◌, length, get_or,
}
use bbdb.Block.Event.{Event, event_less}

pub record HeapItem : Type 0 where
  pub event : Event
  pub slice : ℕ
  pub pos : ℕ

-- `eventHeap.Less`, of the items at two places.
abbrev pub item_less : HeapItem → HeapItem → Bool
item_less a b = event_less a.event b.event

-- A heap in a slice: `heap.Push` and `heap.Pop`, the second of which may not be called on an
-- empty one.
pub record Heap (A : Type 0) (less : A → A → Bool) : Type 1 where
  pub push : List A → A → List A
  pub pop : List A → Option (A × List A)
  pub IsHeap : List A → Type 0
  pub nil-IsHeap : IsHeap []
  pub push-IsHeap : (h : List A) (x : A) → IsHeap h → IsHeap (push h x)
  pub push-perm : (h : List A) (x : A) → Perm (push h x) (x ∷ h)
  pub pop_cases :
      (h : List A)
      → IsHeap h
      → ((h ≡ []) × (pop h ≡ none))
        ⊎ ((x : A) × (h' : List A) × (pop h ≡ some (x, h'))
            × IsHeap h'
            × Perm h (x ∷ h')
            × ((y : A) → Mem y h → less y x ≡ false))

module _ (heap : Heap HeapItem item_less) where
  -- The first event of each slice that has one.
  unfoldable pub push_firsts : ℕ → List (List Event) → List HeapItem → List HeapItem
  push_firsts i [] h = h
  push_firsts i ([] ∷ ss) h = push_firsts (suc i) ss h
  push_firsts i ((e ∷ es) ∷ ss) h =
      push_firsts (suc i) ss (heap.push h (record { event = e; slice = i; pos = 0 }))

  -- Behind an item, the next one of its slice.
  unfoldable pub push_next : List (List Event) → HeapItem → List HeapItem → List HeapItem
  push_next slices item h =
      let slice = get_or slices item.slice [] in
      let next = item.pos + 1 in
      if ltb next (length slice)
      then heap.push h
          (record { event = get_or slice next item.event; slice = item.slice; pos = next })
      else h

  unfoldable pub merge_loop : ℕ → List (List Event) → List HeapItem → Option (List Event)
  merge_loop zero slices h = none
  merge_loop (suc fuel) slices h = elim (heap.pop h) [
    | none ↦ some []
    | some (item, h') ↦ elim (merge_loop fuel slices (push_next slices item h')) [
      | none ↦ none
      | some es ↦ some (item.event ∷ es)
    ]
  ]

abbrev pub total : List (List Event) → ℕ
total [] = 0
total (s ∷ ss) = length s + total ss

unfoldable pub merge_events : Heap HeapItem item_less → List (List Event) → Option (List Event)
merge_events heap [] = some []
merge_events heap (s ∷ []) = some s
merge_events heap (s ∷ s' ∷ ss) =
    let slices = s ∷ s' ∷ ss in
    if total slices == 0
    then some []
    else merge_loop heap (suc (total slices)) slices (push_firsts heap 0 slices [])
