-- ===== src/Block/Event.antt =====
-- internal/block/event.go: events, and the order in which a sealed block holds them.
use bbdb.Base.{ℕ, ◌<◌, ◌^◌, ◌≡◌, Bool, true, false, [], arith, ltb, ◌==◌, if◌then◌else◌, length}
use bbdb.Base.Int.{ℤ, pos, IsI64, ltb_ℤ}
use bbdb.Base.Bytes.{Bytes}

pub record Event : Type 0 where
  pub key_hash : ℕ
  pub timestamp : ℤ
  pub payload : Bytes

-- Go's zero value of an event.
abbrev pub zero_event : Event
zero_event = record { key_hash = 0; timestamp = pos 0; payload = [] }

-- The ranges of the Go field types; a payload is shorter than 4 GiB.
pub record IsEvent (e : Event) : Type 0 where
  pub key_hash : e.key_hash < 2 ^ 64
  pub timestamp : IsI64 e.timestamp
  pub payload : length e.payload < 2 ^ 32

-- The order by key hash, then timestamp: the comparison of `Memtable.Sort` and of `eventHeap.Less`.
abbrev pub less : ℕ → ℤ → ℕ → ℤ → Bool
less k s l t = if k == l then ltb_ℤ s t else ltb k l

abbrev pub event_less : Event → Event → Bool
event_less a b = less a.key_hash a.timestamp b.key_hash b.timestamp

-- What a caller may rely on for an order to sort by.
pub record IsStrictWeak {A : Type 0} (lt : A → A → Bool) : Type 0 where
  pub irrefl : (a : A) → lt a a ≡ false
  pub trans : (a b c : A) → lt a b ≡ true → lt b c ≡ true → lt a c ≡ true
  pub weak : (a b c : A) → lt a b ≡ false → lt b c ≡ false → lt a c ≡ false

less_irrefl : (k : ℕ) (s : ℤ) → less k s k s ≡ false
less_irrefl k s = ground arith

less_trans :
    (k l m : ℕ) (s t u : ℤ) → less k s l t ≡ true → less l t m u ≡ true → less k s m u ≡ true
less_trans k l m s t u h g = ground arith

less_weak :
    (k l m : ℕ) (s t u : ℤ) → less k s l t ≡ false → less l t m u ≡ false → less k s m u ≡ false
less_weak k l m s t u h g = ground arith

-- The order pulled back along two columns.
pub less_by-IsStrictWeak :
    {A : Type 0} (kh : A → ℕ) (ts : A → ℤ) → IsStrictWeak (λ a b. less (kh a) (ts a) (kh b) (ts b))
less_by-IsStrictWeak kh ts = record {
  irrefl = λ a. less_irrefl (kh a) (ts a);
  trans = λ a b c. less_trans (kh a) (kh b) (kh c) (ts a) (ts b) (ts c);
  weak = λ a b c. less_weak (kh a) (kh b) (kh c) (ts a) (ts b) (ts c);
}

-- Sorted as a sealed block is: no event before a smaller one.
abbrev pub NotAfter : Event → Event → Type 0
NotAfter a b = event_less b a ≡ false
