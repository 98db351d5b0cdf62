-- ===== src/Query/Merger/Listed.antt =====
-- A sorted list as a heap, an instance of the parameter for `container/heap`.
use mathlib.Core.List.{Mem, Perm, Pairwise, Pairwise-cons, mem-cons}
use mathlib.Core.List.Perm
use mathlib.Core.Logic.Or
use bbdb.Base.{◌≡◌, refl, ap, ◌∙◌, ◌⊎◌, inl, inr, false, List, [], ◌∷◌, Option, none, some}
use bbdb.Block.Event.{IsStrictWeak, less_by-IsStrictWeak}
use bbdb.Block.Memtable.Insertion.{insert, insert-perm, insert-IsSorted, NotBelow}
use bbdb.Query.Merger.{Heap, HeapItem, item_less}

pub order : IsStrictWeak item_less
order = less_by-IsStrictWeak (λ it. it.event.key_hash) (λ it. it.event.timestamp)

abbrev pub first : List HeapItem → Option (HeapItem × List HeapItem)
first [] = none
first (x ∷ h) = some (x, h)

pub first_lem :
    (h : List HeapItem)
    → Pairwise (NotBelow item_less order) h
    → ((h ≡ []) × (first h ≡ none))
      ⊎ ((x : HeapItem) × (h' : List HeapItem) × (first h ≡ some (x, h'))
          × Pairwise (NotBelow item_less order) h'
          × Perm h (x ∷ h')
          × ((y : HeapItem) → Mem y h → item_less y x ≡ false))
first_lem [] s = inl (refl, refl)
first_lem (x ∷ h) s = inr (
  x,
  h,
  refl,
  (Pairwise-cons.0 s).1,
  Perm.refl (x ∷ h),
  λ y m.
      Or.elim (hlevel) (mem-cons.0 m) (λ e. ap (λ z. item_less z x) e ∙ order.irrefl x)
        (λ m'. (Pairwise-cons.0 s).0 y m'),
)

abbrev pub listed : Heap HeapItem item_less
listed = record {
  push = λ h x. insert item_less x h;
  pop = first;
  IsHeap = Pairwise (NotBelow item_less order);
  nil-IsHeap = Pairwise.nil;
  push-IsHeap = λ h x s. insert-IsSorted item_less order x h s;
  push-perm = λ h x. insert-perm item_less x h;
  pop_cases = first_lem;
}
