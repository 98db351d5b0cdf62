-- ===== src/Block/Bloom/Exact.antt =====
-- A filter that keeps all that was added, as an instance of the parameter of Block/Bloom.
use bbdb.Base.{
  ◌≡◌, refl, sym, [], ◌∷◌, ◌++◌, Bool, true, false, ◌==◌, ok, if◌then◌else◌, arith, ==_refl,
}
use bbdb.Base.Bytes.{Bytes}
use bbdb.Block.Bloom.{BloomLib}

pub starts_with : Bytes → Bytes → Bool
starts_with [] f = true
starts_with (b ∷ bs) [] = false
starts_with (b ∷ bs) (x ∷ f) = if b == x then starts_with bs f else false

unfoldable pub holds : Bytes → Bytes → Bool
unfolding starts_with
holds [] b = starts_with b []
holds (x ∷ f) b = let rest = holds f b in if starts_with b (x ∷ f) then true else rest

starts_with-append : (b f : Bytes) → starts_with b (b ++ f) ≡ true
unfolding starts_with
starts_with-append [] f = refl
starts_with-append (x ∷ b) f = ground (arith, ==_refl x, starts_with-append b f)

pub holds-append : (f b : Bytes) → holds (b ++ f) b ≡ true
unfolding holds
holds-append [] [] = refl
holds-append (y ∷ f) [] = refl
holds-append f (x ∷ b) = ground (arith, starts_with-append (x ∷ b) f)

pub holds-append_other : (f b c : Bytes) → holds f b ≡ true → holds (c ++ f) b ≡ true
unfolding holds
holds-append_other f b [] h = h
holds-append_other f b (x ∷ c) h = ground (arith, holds-append_other f b c h)

abbrev pub exact : BloomLib
exact = record {
  Filter = Bytes;
  Rate = Bool;
  default_fpr = true;
  not_positive = λ r. r;
  new_with_estimates = λ n r. [];
  add = λ f b. b ++ f;
  test = holds;
  write_to = λ f. ok f;
  read_from = λ b. ok b;
  test-add = holds-append;
  test-add_other = holds-append_other;
  read-write = λ f b e. sym e;
}
