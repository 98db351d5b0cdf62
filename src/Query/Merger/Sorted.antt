-- ===== src/Query/Merger/Sorted.antt =====
-- The result of MergeEvents of internal/query/merger.go.
use mathlib.Core.List.{
  Mem, Perm, Permᴰ, Pairwise, Pairwise-cons, mem-cons, not-mem-nil, mem-append, mem-cons_of_mem,
  mem-cons_self, Perm-prop,
}
use mathlib.Core.List.Perm
use mathlib.Core.Logic.{∥∥₁_elim}
use mathlib.Core.Logic.Or
use bbdb.Base.{
  ℕ, zero, suc, ◌+◌, ◌<◌, ◌≡◌, refl, sym, ap, ◌∙◌, subst, inl, inr, List, [], ◌∷◌, ◌++◌, some,
  arith, ltb, ◌==◌, length, get_or, get_elem?, drop, get_elem?-eq-get_or, append-nil, append_assoc,
  length-append, Bool-cases,
}
use bbdb.Block.Event.{Event, NotAfter, event_less, IsStrictWeak, less_by-IsStrictWeak}
use bbdb.Query.Merger.Runs.{length-Perm, drop-get_elem?, drop-Pairwise, drop_all, runs-swap}
use bbdb.Query.Merger.{
  HeapItem, item_less, Heap, push_firsts, push_next, merge_loop, total, merge_events,
}

abbrev pub all_events : List (List Event) → List Event
all_events [] = []
all_events (s ∷ ss) = s ++ all_events ss

pub length-all_events : (ss : List (List Event)) → length (all_events ss) ≡ total ss
length-all_events [] = refl
length-all_events (s ∷ ss) = omega (arith, length-append s (all_events ss), length-all_events ss)

-- The slices are sorted, each for itself.
abbrev pub AllSorted : List (List Event) → Type 0
AllSorted slices = (i : ℕ) → Pairwise NotAfter (get_or slices i [])

event_order : IsStrictWeak event_less
event_order = less_by-IsStrictWeak (λ e. e.key_hash) (λ e. e.timestamp)

module _ (slices : List (List Event)) where
  abbrev slice_of : HeapItem → List Event
  slice_of it = get_or slices it.slice []

  -- The event of an item is the one at its place.
  abbrev IsItem : HeapItem → Type 0
  IsItem it = get_elem? (slice_of it) it.pos ≡ some it.event

  -- The events of a slice from an item on, and those of all items.
  abbrev rest : HeapItem → List Event
  rest it = drop it.pos (slice_of it)

  abbrev remaining : List HeapItem → List Event
  remaining [] = []
  remaining (it ∷ h) = rest it ++ remaining h

  remaining-Permᴰ : {h g : List HeapItem} → Permᴰ h g → Perm (remaining h) (remaining g)
  remaining-Permᴰ Permᴰ.nil = Perm.nil
  remaining-Permᴰ (Permᴰ.cons {a = a} {b = b} {l₁ = h} {l₂ = g} e d) =
      subst (λ it. Perm (rest a ++ remaining h) (rest it ++ remaining g)) e
        (Perm.append_left (rest a) (remaining-Permᴰ d))
  remaining-Permᴰ (Permᴰ.swap {a = a} {b = b} {a' = a'} {b' = b'} {l = h} e f) =
      subst (λ x. Perm (remaining (a ∷ b ∷ h)) (rest x ++ (rest b' ++ remaining h))) f
        (subst (λ y. Perm (remaining (a ∷ b ∷ h)) (rest b ++ (rest y ++ remaining h))) e
          (runs-swap (rest a) (rest b) (remaining h)))
  remaining-Permᴰ (Permᴰ.trans d f) = Perm.trans (remaining-Permᴰ d) (remaining-Permᴰ f)

  remaining-Perm : {h g : List HeapItem} → Perm h g → Perm (remaining h) (remaining g)
  remaining-Perm h = ∥∥₁_elim h Perm-prop remaining-Permᴰ

  module _ (heap : Heap HeapItem item_less) where
    abbrev AllItems : List HeapItem → Type 0
    AllItems h = (it : HeapItem) → Mem it h → IsItem it

    -- What follows an item in its slice is not before it.
    rest-head : (it : HeapItem) → IsItem it → rest it ≡ it.event ∷ drop (it.pos + 1) (slice_of it)
    rest-head it v = drop-get_elem? (slice_of it) it.pos (it.pos + 1) it.event v (omega arith)

    rest-IsSorted : AllSorted slices → (it : HeapItem) → Pairwise NotAfter (rest it)
    rest-IsSorted sorted it = drop-Pairwise it.pos (slice_of it) (sorted it.slice)

    behind :
        AllSorted slices
        → (it : HeapItem) (x e : Event) → IsItem it
        → NotAfter x it.event
        → Mem e (rest it)
        → NotAfter x e
    behind sorted it x e v le m =
        Or.elim (hlevel) (mem-cons.0 (subst (Mem e) (rest-head it v) m))
          (λ same. ap (λ y. event_less y x) same ∙ le)
          (λ later.
            event_order.weak e it.event x
              ((Pairwise-cons.0
                  (subst (Pairwise NotAfter) (rest-head it v) (rest-IsSorted sorted it))).0
                e later)
              le)

    -- An event that remains is not before the item of the heap that it stands behind.
    remaining-Mem :
        AllSorted slices
        → (h : List HeapItem) (x : Event) → AllItems h
        → ((it : HeapItem) → Mem it h → NotAfter x it.event)
        → (e : Event) → Mem e (remaining h)
        → NotAfter x e
    remaining-Mem sorted [] x v le e m = absurd (not-mem-nil m)
    remaining-Mem sorted (it ∷ h) x v le e m =
        Or.elim (hlevel) (mem-append.0 m)
          (λ here. behind sorted it x e (v it mem-cons_self) (le it mem-cons_self) here)
          (λ there.
            remaining-Mem sorted h x (λ i n. v i (mem-cons_of_mem it n))
              (λ i n. le i (mem-cons_of_mem it n)) e there)

    module _ (it : HeapItem) (h : List HeapItem) (v : IsItem it) where
      abbrev follower : HeapItem
      follower = record {
        event = get_or (slice_of it) (it.pos + 1) it.event;
        slice = it.slice;
        pos = it.pos + 1;
      }

      -- The heap with the next item of the slice holds what remains without the item itself.
      push_next_lem :
          AllItems h
          → heap.IsHeap h
          → AllItems (push_next heap slices it h)
            × heap.IsHeap (push_next heap slices it h)
            × Perm (rest it ++ remaining h) (it.event ∷ remaining (push_next heap slices it h))
      unfolding push_next
      push_next_lem a b = elim (Bool-cases (ltb (it.pos + 1) (length (slice_of it)))) [
        | inl t ↦ rw t (
          λ x m.
              Or.elim (hlevel) (mem-cons.0 ((Perm.mem_iff (heap.push-perm h follower)).0 m))
                (λ e.
                  subst IsItem (sym e)
                    (get_elem?-eq-get_or (slice_of it) (it.pos + 1) it.event (ground (arith, t))))
                (λ m'. a x m'),
          heap.push-IsHeap h follower b,
          rw (rest-head it v)
              (Perm.cons it.event (remaining-Perm (Perm.symm (heap.push-perm h follower)))),
        )
        | inr f ↦ rw f (
          a,
          b,
          rw (rest-head it v, drop_all (it.pos + 1) (slice_of it) (ground (arith, f)))
              (Perm.refl (it.event ∷ remaining h)),
        )
      ]

    -- The loop empties the heap, in order.
    merge_loop_lem :
        (fuel : ℕ) (h : List HeapItem)
        → AllItems h
        → heap.IsHeap h
        → length (remaining h) < fuel
        → (out : List Event) × (merge_loop heap fuel slices h ≡ some out)
          × Perm out (remaining h)
          × (AllSorted slices → Pairwise NotAfter out)
    unfolding merge_loop
    merge_loop_lem zero h a b lt = absurd (omega arith)
    merge_loop_lem (suc fuel) h a b lt = elim (heap.pop_cases h b) [
      | inl (e, p) ↦ (
        [],
        ground (arith, p),
        subst (λ l. Perm [] (remaining l)) (sym e) Perm.nil,
        λ sorted. Pairwise.nil,
      )
      | inr (it, h', p, b', q, least) ↦
          let v = a it ((Perm.mem_iff q).1 mem-cons_self) in
          let (a'', b'', r) =
            push_next_lem it h' v (λ x m. a x ((Perm.mem_iff q).1 (mem-cons_of_mem it m))) b' in
          let all : Perm (remaining h) (it.event ∷ remaining (push_next heap slices it h')) =
            Perm.trans (remaining-Perm q) r in
          let (out, s, t, u) =
            merge_loop_lem fuel (push_next heap slices it h') a'' b''
              (omega (arith, length-Perm all)) in
          (
            it.event ∷ out,
            ground (arith, p, s),
            Perm.trans (Perm.cons it.event t) (Perm.symm all),
            λ sorted.
                Pairwise.cons
                  (λ e m.
                    remaining-Mem sorted h it.event a least e
                      ((Perm.mem_iff all).1 (mem-cons_of_mem it.event ((Perm.mem_iff t).0 m))))
                  (u sorted),
          )
    ]

    -- The heap of the first items holds all events.
    push_firsts_lem :
        (i : ℕ) (ss : List (List Event)) (h : List HeapItem)
        → ((n j : ℕ) → n ≡ i + j → get_or slices n [] ≡ get_or ss j [])
        → AllItems h
        → heap.IsHeap h
        → AllItems (push_firsts heap i ss h)
          × heap.IsHeap (push_firsts heap i ss h)
          × Perm (remaining (push_firsts heap i ss h)) (all_events ss ++ remaining h)
    unfolding push_firsts
    push_firsts_lem i [] h same a b = (a, b, Perm.refl (remaining h))
    push_firsts_lem i ([] ∷ ss) h same a b =
        push_firsts_lem (suc i) ss h (λ n j e. same n (suc j) (omega arith)) a b
    push_firsts_lem i ((e ∷ es) ∷ ss) h same a b =
        let it : HeapItem = record { event = e; slice = i; pos = 0 } in
        let here : get_or slices i [] ≡ e ∷ es = same i 0 (omega arith) in
        let (a', b', p) =
          push_firsts_lem (suc i) ss (heap.push h it) (λ n j q. same n (suc j) (omega arith))
            (λ x m.
              Or.elim (hlevel) (mem-cons.0 ((Perm.mem_iff (heap.push-perm h it)).0 m))
                (λ q. subst IsItem (sym q) (ap (λ l. get_elem? l 0) here)) (λ m'. a x m'))
            (heap.push-IsHeap h it b) in
        (
          a',
          b',
          Perm.trans p (
              Perm.trans (Perm.append_left (all_events ss) (remaining-Perm (heap.push-perm h it))) (
                subst
                  (λ l.
                    Perm (all_events ss ++ (l ++ remaining h))
                      (((e ∷ es) ++ all_events ss) ++ remaining h))
                  (sym here)
                  (subst (Perm (all_events ss ++ ((e ∷ es) ++ remaining h)))
                    (sym (append_assoc (e ∷ es) (all_events ss) (remaining h)))
                    (runs-swap (all_events ss) (e ∷ es) (remaining h))))),
        )

-- The merge of slices comes to an end with all their events, sorted or not.
pub merge_events-Perm :
    (heap : Heap HeapItem item_less) (slices : List (List Event))
    → (out : List Event) × (merge_events heap slices ≡ some out)
      × Perm out (all_events slices)
      × (AllSorted slices → Pairwise NotAfter out)
unfolding merge_events
merge_events-Perm heap [] = ([], refl, Perm.nil, λ s. Pairwise.nil)
merge_events-Perm heap (x ∷ []) =
    (x, refl, subst (Perm x) (sym (append-nil x)) (Perm.refl x), λ s. s 0)
merge_events-Perm heap (x ∷ y ∷ ss) = elim (Bool-cases (total (x ∷ y ∷ ss) == 0)) [
  | inl t ↦ ([], ground (arith, t), nothing (ground (arith, t)), λ s. Pairwise.nil)
  | inr f ↦
      let (a, b, p) =
        push_firsts_lem (x ∷ y ∷ ss) heap 0 (x ∷ y ∷ ss) []
          (λ n j e. ap (λ k. get_or (x ∷ y ∷ ss) k []) {y = j} (omega arith))
          (λ it m. absurd (not-mem-nil m)) heap.nil-IsHeap in
      let p' =
        subst (Perm (remaining (x ∷ y ∷ ss) (push_firsts heap 0 (x ∷ y ∷ ss) [])))
          (append-nil (all_events (x ∷ y ∷ ss))) p in
      let (out, q, r, u) =
        merge_loop_lem (x ∷ y ∷ ss) heap (suc (total (x ∷ y ∷ ss)))
          (push_firsts heap 0 (x ∷ y ∷ ss) []) a b
          (omega (arith, length-Perm p', length-all_events (x ∷ y ∷ ss))) in
      (out, ground (arith, f, q), Perm.trans r p', u)
]
  where
    nothing : total (x ∷ y ∷ ss) ≡ 0 → Perm [] (all_events (x ∷ y ∷ ss))
    nothing e = go (all_events (x ∷ y ∷ ss)) (omega (arith, length-all_events (x ∷ y ∷ ss)))
      where
        go : (l : List Event) → length l ≡ 0 → Perm [] l
        go [] h = Perm.nil
        go (e ∷ l) h = absurd (omega arith)

-- The merge of sorted slices comes to an end, holds every event of every slice as many times as
-- it is there and no other, and is sorted by key hash and timestamp.
pub merge_events_lem :
    (heap : Heap HeapItem item_less) (slices : List (List Event))
    → AllSorted slices
    → (out : List Event) × (merge_events heap slices ≡ some out)
      × Perm out (all_events slices)
      × Pairwise NotAfter out
merge_events_lem heap slices s =
    let (out, e, p, u) = merge_events-Perm heap slices in (out, e, p, u s)
