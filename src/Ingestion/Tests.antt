-- ===== src/Ingestion/Tests.antt =====
-- Rings at concrete contents, with counters that are about to wrap.
use bbdb.Base.{
  ℕ, ◌-◌, ◌^◌, ◌≡◌, refl, ◌⊎◌, [], ◌∷◌, ◌++◌, ◌<◌, true, false, none, some, arith, if◌then◌else◌,
  length,
}
use bbdb.Base.Int.{pos, ltb_ℤ, leb_ℤ, ◌+ℤ◌}
use bbdb.Block.Event.{Event}
use bbdb.Ingestion.RingBuf.{
  RingBuf, pushed, stopped, again, push_turn, pop, drain_all, new_ring_buf,
}
use bbdb.Ingestion.RingBuf.Fifo.{IsRing, contents, push_turn_lem, pop_lem, drain_all_lem}
use bbdb.Ingestion.RingBuf.Size.{new_ring_buf_lem}

abbrev event : ℕ → Event
event k = record { key_hash = k; timestamp = pos 1; payload = [] }

-- Three of four slots in use; the counter of the next write is 1.
abbrev wrapped : RingBuf
wrapped = record {
  buf = event 30 ∷ event 40 ∷ event 10 ∷ event 20 ∷ [];
  mask = 3;
  head = 1;
  tail = 2 ^ 64 - 2;
}

wrapped-IsRing : IsRing 2 wrapped
wrapped-IsRing = omega arith

push_turn_lem_example :
    ((length (contents wrapped) < 2 ^ 2)
      × (rb' : RingBuf) × (push_turn wrapped (event 50) false ≡ pushed rb')
      × IsRing 2 rb'
      × (contents rb' ≡ contents wrapped ++ event 50 ∷ []))
    ⊎ ((length (contents wrapped) ≡ 2 ^ 2)
        × (push_turn wrapped (event 50) false ≡ (if false then stopped else again)))
push_turn_lem_example = push_turn_lem 2 wrapped wrapped-IsRing (event 50) false

pop_lem_example :
    ((contents wrapped ≡ []) × (pop wrapped ≡ none))
    ⊎ ((e : Event) × (rb' : RingBuf) × (pop wrapped ≡ some (e, rb'))
        × IsRing 2 rb'
        × (contents wrapped ≡ e ∷ contents rb'))
pop_lem_example = pop_lem 2 wrapped wrapped-IsRing

drain_all_lem_example :
    (rb' : RingBuf) × (drain_all 4 wrapped ≡ some (event 10 ∷ event 20 ∷ event 30 ∷ [], rb'))
    × (contents rb' ≡ [])
    × IsRing 2 rb'
drain_all_lem_example = drain_all_lem 2 4 wrapped wrapped-IsRing (omega arith)

new_ring_buf_lem_example :
    (k : ℕ) × (rb : RingBuf) × (new_ring_buf (pos 100) ≡ some rb)
    × IsRing k rb
    × (contents rb ≡ [])
    × (leb_ℤ (pos 100) (pos (2 ^ k)) ≡ true)
    × ((k ≡ 0) ⊎ (ltb_ℤ (pos (2 ^ k)) (pos 100 +ℤ pos 100) ≡ true))
new_ring_buf_lem_example = new_ring_buf_lem (pos 100) refl
