-- ===== src/MappedFile/Release.antt =====
-- What is taken from the system by a `MappedFile` (include/cbe/file_handle.hpp) is given back.
use catalyst_build_executor.Base.{
  ◌*◌, ℕ, zero, suc, ◌+◌, ◌≡◌, refl, subst, inl, inr, ◌≢◌, Bool, ◌&&◌, Bytes, List, [], ◌∷◌, ◌++◌,
  Option, none, some, arith, ◌==◌, if◌then◌else◌, Bool-cases,
}
use catalyst_build_executor.Domain.{Result, ok, unexpected, thrown}
use catalyst_build_executor.MappedFile.{
  Kernel, Call, opened, closed, mapped, unmapped, MappedFile, after_mmap, after_stat, after_open,
  construct, unmap_data, close_descriptor, destroy, move,
}

-- How often a descriptor is opened and closed, and a range is mapped and unmapped.
abbrev pub opens : ℕ → List Call → ℕ
opens fd [] = 0
opens fd (opened d ∷ calls) = (if d == fd then 1 else 0) + opens fd calls
opens fd (closed d ∷ calls) = opens fd calls
opens fd (mapped a n ∷ calls) = opens fd calls
opens fd (unmapped a n ∷ calls) = opens fd calls

abbrev pub closes : ℕ → List Call → ℕ
closes fd [] = 0
closes fd (opened d ∷ calls) = closes fd calls
closes fd (closed d ∷ calls) = (if d == fd then 1 else 0) + closes fd calls
closes fd (mapped a n ∷ calls) = closes fd calls
closes fd (unmapped a n ∷ calls) = closes fd calls

abbrev pub same_range : (a n address size : ℕ) → ℕ
same_range a n address size = if a == address && n == size then 1 else 0

abbrev pub maps : (address size : ℕ) → List Call → ℕ
maps address size [] = 0
maps address size (opened d ∷ calls) = maps address size calls
maps address size (closed d ∷ calls) = maps address size calls
maps address size (mapped a n ∷ calls) = same_range a n address size + maps address size calls
maps address size (unmapped a n ∷ calls) = maps address size calls

abbrev pub unmaps : (address size : ℕ) → List Call → ℕ
unmaps address size [] = 0
unmaps address size (opened d ∷ calls) = unmaps address size calls
unmaps address size (closed d ∷ calls) = unmaps address size calls
unmaps address size (mapped a n ∷ calls) = unmaps address size calls
unmaps address size (unmapped a n ∷ calls) = same_range a n address size + unmaps address size calls

-- Whatever is opened is closed as often, and whatever is mapped is unmapped as often.
pub record IsReleased (calls : List Call) : Type 0 where
  pub descriptors : (fd : ℕ) → opens fd calls ≡ closes fd calls
  pub ranges : (address size : ℕ) → maps address size calls ≡ unmaps address size calls

-- The calls of a constructor, and of the destructor if there is an object.
abbrev pub lifetime : Result MappedFile × List Call → List Call
lifetime (ok m, calls) = calls ++ destroy m
lifetime (unexpected e, calls) = calls
lifetime (thrown e, calls) = calls

after_mmap-IsReleased :
    (path : Bytes) (fd size : ℕ) (answer : Option ℕ)
    → answer ≢ some 0
    → IsReleased (lifetime (after_mmap path fd size answer))
unfolding destroy
after_mmap-IsReleased path fd size none nonzero = record {
  descriptors = λ d. omega arith;
  ranges = λ a n. refl;
}
after_mmap-IsReleased path fd size (some zero) nonzero = absurd (nonzero refl)
after_mmap-IsReleased path fd size (some (suc addr)) nonzero = record {
  descriptors = λ d. ground arith;
  ranges = λ a n. ground arith;
}

after_stat-IsReleased :
    (k : Kernel) (path : Bytes) (populate : Bool) (fd : ℕ) (answer : Option ℕ)
    → ((d n : ℕ) → k.mmap d n populate ≢ some 0)
    → IsReleased (lifetime (after_stat k path populate fd answer))
unfolding destroy
after_stat-IsReleased k path populate fd none nonzero = record {
  descriptors = λ d. omega arith;
  ranges = λ a n. refl;
}
after_stat-IsReleased k path populate fd (some zero) nonzero = record {
  descriptors = λ d. omega arith;
  ranges = λ a n. refl;
}
after_stat-IsReleased k path populate fd (some (suc n)) nonzero =
    after_mmap-IsReleased path fd (suc n) (k.mmap fd (suc n) populate) (nonzero fd (suc n))

after_open-IsReleased :
    (k : Kernel) (path : Bytes) (populate : Bool) (answer : Option ℕ)
    → ((d n : ℕ) → k.mmap d n populate ≢ some 0)
    → IsReleased (lifetime (after_open k path populate answer))
after_open-IsReleased k path populate none nonzero = record {
  descriptors = λ d. refl;
  ranges = λ a n. refl;
}
after_open-IsReleased k path populate (some fd) nonzero =
    after_stat-IsReleased k path populate fd (k.size_of fd) nonzero

-- On every branch of the constructor, with the destructor after those that return, each descriptor is
-- closed as often as it is opened and each range unmapped as often as it is mapped. The
-- system maps no file at the address 0.
pub construct-IsReleased :
    (k : Kernel) (path : Bytes) (populate : Bool)
    → ((d n : ℕ) → k.mmap d n populate ≢ some 0)
    → IsReleased (lifetime (construct k path populate))
unfolding construct
construct-IsReleased k path populate nonzero =
    after_open-IsReleased k path populate (k.open_file path) nonzero

opens-append : (fd : ℕ) (xs ys : List Call) → opens fd (xs ++ ys) ≡ opens fd xs + opens fd ys
opens-append fd [] ys = omega arith
opens-append fd (opened d ∷ xs) ys = omega (arith, opens-append fd xs ys)
opens-append fd (closed d ∷ xs) ys = opens-append fd xs ys
opens-append fd (mapped a n ∷ xs) ys = opens-append fd xs ys
opens-append fd (unmapped a n ∷ xs) ys = opens-append fd xs ys

closes-append : (fd : ℕ) (xs ys : List Call) → closes fd (xs ++ ys) ≡ closes fd xs + closes fd ys
closes-append fd [] ys = omega arith
closes-append fd (opened d ∷ xs) ys = closes-append fd xs ys
closes-append fd (closed d ∷ xs) ys = omega (arith, closes-append fd xs ys)
closes-append fd (mapped a n ∷ xs) ys = closes-append fd xs ys
closes-append fd (unmapped a n ∷ xs) ys = closes-append fd xs ys

maps-append : (a n : ℕ) (xs ys : List Call) → maps a n (xs ++ ys) ≡ maps a n xs + maps a n ys
maps-append a n [] ys = omega arith
maps-append a n (opened d ∷ xs) ys = maps-append a n xs ys
maps-append a n (closed d ∷ xs) ys = maps-append a n xs ys
maps-append a n (mapped b m ∷ xs) ys = omega (arith, maps-append a n xs ys)
maps-append a n (unmapped b m ∷ xs) ys = maps-append a n xs ys

unmaps-append :
    (a n : ℕ) (xs ys : List Call) → unmaps a n (xs ++ ys) ≡ unmaps a n xs + unmaps a n ys
unmaps-append a n [] ys = omega arith
unmaps-append a n (opened d ∷ xs) ys = unmaps-append a n xs ys
unmaps-append a n (closed d ∷ xs) ys = unmaps-append a n xs ys
unmaps-append a n (mapped b m ∷ xs) ys = unmaps-append a n xs ys
unmaps-append a n (unmapped b m ∷ xs) ys = omega (arith, unmaps-append a n xs ys)

-- Calls that only take, and calls that only give back.
record IsTaking (calls : List Call) : Type 0 where
  closes_none : (fd : ℕ) → closes fd calls ≡ 0
  unmaps_none : (a n : ℕ) → unmaps a n calls ≡ 0
  opens_one : (fd : ℕ) × (opens fd calls ≡ 1)

record IsGiving (calls : List Call) : Type 0 where
  opens_none : (fd : ℕ) → opens fd calls ≡ 0
  maps_none : (a n : ℕ) → maps a n calls ≡ 0

close_descriptor-IsGiving : (o : Option ℕ) → IsGiving (close_descriptor o)
close_descriptor-IsGiving none = record { opens_none = λ fd. refl; maps_none = λ a n. refl }
close_descriptor-IsGiving (some d) = record { opens_none = λ fd. refl; maps_none = λ a n. refl }

unmap_data-IsGiving : (m : MappedFile) → IsGiving (unmap_data m)
unmap_data-IsGiving m = elim (Bool-cases (m.file_data == 0)) [
  | inl null ↦ rw (null, unmap_data) (record { opens_none = λ fd. refl; maps_none = λ a n. refl })
  | inr address ↦
      rw (address, unmap_data) (record { opens_none = λ fd. refl; maps_none = λ a n. refl })
]

destroy-IsGiving : (m : MappedFile) → IsGiving (destroy m)
unfolding destroy
destroy-IsGiving m =
    let first = unmap_data-IsGiving m in
    let last = close_descriptor-IsGiving m.file_descriptor in
    record {
      opens_none = λ fd. omega (
        arith,
        opens-append fd (unmap_data m) (close_descriptor m.file_descriptor),
        first.opens_none fd,
        last.opens_none fd,
      );
      maps_none = λ a n. omega (
        arith,
        maps-append a n (unmap_data m) (close_descriptor m.file_descriptor),
        first.maps_none a n,
        last.maps_none a n,
      );
    }

abbrev Takes : Result MappedFile × List Call → Type 0
Takes (ok m, calls) = IsTaking calls
Takes (unexpected e, calls) = Unit
Takes (thrown e, calls) = Unit

after_mmap-Takes :
    (path : Bytes) (fd size : ℕ) (answer : Option ℕ) → Takes (after_mmap path fd size answer)
after_mmap-Takes path fd size none = tt
after_mmap-Takes path fd size (some addr) = record {
  closes_none = λ d. refl;
  unmaps_none = λ a n. refl;
  opens_one = (fd, ground arith);
}

after_open-Takes :
    (k : Kernel) (path : Bytes) (populate : Bool) (answer : Option ℕ)
    → Takes (after_open k path populate answer)
after_open-Takes k path populate none = tt
after_open-Takes k path populate (some fd) = with_size (k.size_of fd)
  where
    with_size : (size : Option ℕ) → Takes (after_stat k path populate fd size)
    with_size none = tt
    with_size (some zero) = record {
      closes_none = λ d. refl;
      unmaps_none = λ a n. refl;
      opens_one = (fd, ground arith);
    }
    with_size (some (suc n)) = after_mmap-Takes path fd (suc n) (k.mmap fd (suc n) populate)

-- Each thing that is taken once is given back twice.
pub record IsReleasedTwice (calls : List Call) : Type 0 where
  pub some_descriptor : (fd : ℕ) × (opens fd calls ≡ 1)
  pub descriptors : (fd : ℕ) → closes fd calls ≡ 2 * opens fd calls
  pub ranges : (address size : ℕ) → unmaps address size calls ≡ 2 * maps address size calls

-- After a move both objects hold what the constructor took: with both destructors, a descriptor that was
-- opened once is closed twice, and each range is unmapped twice as often as it was mapped. The
-- system maps no file at the address 0.
pub move_releases_twice :
    (k : Kernel) (path : Bytes) (populate : Bool) (m : MappedFile) (calls : List Call)
    → ((d n : ℕ) → k.mmap d n populate ≢ some 0)
    → ◌≡◌ {A = Result MappedFile × List Call} (construct k path populate) (ok m, calls)
    → IsReleasedTwice (calls ++ (destroy (move m).0 ++ destroy (move m).1))
unfolding construct
move_releases_twice k path populate m calls nonzero made =
    let taking : IsTaking calls =
      subst Takes made (after_open-Takes k path populate (k.open_file path)) in
    let giving = destroy-IsGiving m in
    let released : IsReleased (calls ++ destroy m) =
      subst (λ r. IsReleased (lifetime r)) made (construct-IsReleased k path populate nonzero) in
    let (fd, once) = taking.opens_one in
    record {
      some_descriptor = (
        fd,
        omega (
          arith,
          once,
          opens-append fd calls (destroy m ++ destroy m),
          opens-append fd (destroy m) (destroy m),
          giving.opens_none fd,
        ),
      );
      descriptors = λ d. omega (
        arith,
        released.descriptors d,
        taking.closes_none d,
        giving.opens_none d,
        opens-append d calls (destroy m),
        closes-append d calls (destroy m),
        opens-append d calls (destroy m ++ destroy m),
        closes-append d calls (destroy m ++ destroy m),
        opens-append d (destroy m) (destroy m),
        closes-append d (destroy m) (destroy m),
      );
      ranges = λ a n. omega (
        arith,
        released.ranges a n,
        taking.unmaps_none a n,
        giving.maps_none a n,
        maps-append a n calls (destroy m),
        unmaps-append a n calls (destroy m),
        maps-append a n calls (destroy m ++ destroy m),
        unmaps-append a n calls (destroy m ++ destroy m),
        maps-append a n (destroy m) (destroy m),
        unmaps-append a n (destroy m) (destroy m),
      );
    }
