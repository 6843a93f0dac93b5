-- ===== src/Fuse/State/Counts.antt =====
-- The kernel's lookup counts: what `forget` takes away and what a step adds.
use snapshot_fs.Prelude.{
  ℕ, ◌+◌, ◌-◌, ◌<◌, ◌≡◌, some, List, [], ◌∷◌, ℤ, pos, negsuc, arith, if◌then◌else◌, ◌==◌, ==→eq,
}
use snapshot_fs.Dict.{get, nat_key}
use snapshot_fs.Dict.Laws.{get-put, get-remove}
use snapshot_fs.Fuse.State.{Operations, lookup_count, increment_lookup, forget_one, forget}

pub lookup_count-increment_lookup :
    (i j : ℕ) (s : Operations)
    → lookup_count i (increment_lookup j s)
      ≡ (if j == i then lookup_count i s + 1 else lookup_count i s)
unfolding increment_lookup
lookup_count-increment_lookup i j s =
    ground (arith, get-put i j (lookup_count j s + 1) s.lookup_counts, ==→eq j i)

-- `nlookup`, if it is positive.
abbrev pub taken : ℤ → ℕ
taken (pos n) = n
taken (negsuc n) = 0

lookup_count-forget_one :
    (i j : ℕ) (n : ℤ) (s : Operations)
    → lookup_count i (forget_one j n s)
      ≡ (if j == i then lookup_count i s - taken n else lookup_count i s)
unfolding forget_one
lookup_count-forget_one i j (negsuc n) s = ground arith
lookup_count-forget_one i j (pos n) s = ground (
  arith,
  get-put i j (lookup_count j s - n) s.lookup_counts,
  get-remove i j s.lookup_counts,
  ==→eq j i,
)

-- How often a call of `forget` names `i`, in all.
pub forgotten : ℕ → List (ℕ × ℤ) → ℕ
forgotten i [] = 0
forgotten i ((j, n) ∷ rest) = (if j == i then taken n else 0) + forgotten i rest

-- `forget` takes from the count of each inode what the positive numbers of the list name
-- for it, down to zero.
pub lookup_count-forget :
    (i : ℕ) (pairs : List (ℕ × ℤ)) (s : Operations)
    → lookup_count i (forget pairs s) ≡ lookup_count i s - forgotten i pairs
unfolding forget forgotten
lookup_count-forget i [] s = omega arith
lookup_count-forget i ((j, n) ∷ rest) s =
    ground (arith, lookup_count-forget i rest (forget_one j n s), lookup_count-forget_one i j n s)

-- The counts hold no zero: what is forgotten in full is no longer there.
abbrev pub AllPositive : Operations → Type 0
AllPositive s = (i n : ℕ) → get i s.lookup_counts ≡ some n → 0 < n

AllPositive-increment_lookup :
    (j : ℕ) (s : Operations) → AllPositive s → AllPositive (increment_lookup j s)
unfolding increment_lookup
AllPositive-increment_lookup j s h i n at =
    ground (arith, get-put i j (lookup_count j s + 1) s.lookup_counts, h i n)

AllPositive-forget_one :
    (j : ℕ) (k : ℤ) (s : Operations) → AllPositive s → AllPositive (forget_one j k s)
unfolding forget_one
AllPositive-forget_one j (negsuc k) s h i n at = h i n at
AllPositive-forget_one j (pos k) s h i n at = ground (
  arith,
  get-put i j (lookup_count j s - k) s.lookup_counts,
  get-remove i j s.lookup_counts,
  h i n,
)

-- If no lookup count is zero, then none is after `forget`.
pub AllPositive-forget :
    (pairs : List (ℕ × ℤ)) (s : Operations) → AllPositive s → AllPositive (forget pairs s)
unfolding forget
AllPositive-forget [] s h = h
AllPositive-forget ((j, k) ∷ rest) s h =
    AllPositive-forget rest (forget_one j k s) (AllPositive-forget_one j k s h)
