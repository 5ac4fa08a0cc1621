-- ===== src/Common/Lists.antt =====
-- Lists measured by native numbers, and how often a number stands in one.
use Prim.Native.Nat.{ℕ, zero, suc, ◌+◌, ◌≤◌, ◌<◌}
use mathlib.Core.Path.{◌≡◌, refl, sym}
use native.Mathlib.Decide.{ℕ_discrete}
use mathlib.Core.Logic.{◌≢◌}
use mathlib.Core.List.{List, [], ◌∷◌, ◌++◌}
use mathlib.Core.Option.{Option, none, some}
use native.Mathlib.Omega.{arith}
use g20_os_lab_project.Common.Tests.{◌==◌, bit}

module _ {ℓ} {A : Type ℓ} where
  abbrev pub length : List A → ℕ
  length [] = 0
  length (x ∷ xs) = suc (length xs)

  abbrev pub get_elem? : List A → ℕ → Option A
  get_elem? [] i = none
  get_elem? (x ∷ xs) zero = some x
  get_elem? (x ∷ xs) (suc i) = get_elem? xs i

  pub length-append : (xs ys : List A) → length (xs ++ ys) ≡ length xs + length ys
  length-append [] ys = omega arith
  length-append (x ∷ xs) ys = omega (arith, length-append xs ys)

-- A predicate on every element.
abbrev pub All {ℓ κ} : {A : Type ℓ} → (A → Type κ) → List A → Type κ
All P [] = Unit
All P (x ∷ xs) = P x × All P xs

pub All-append {ℓ κ} :
    {A : Type ℓ} (P : A → Type κ) (xs ys : List A) → All P xs → All P ys → All P (xs ++ ys)
All-append P [] ys h k = k
All-append P (x ∷ xs) ys h k = (h.0, All-append P xs ys h.1 k)

-- How often `a` stands in the list.
abbrev pub count : ℕ → List ℕ → ℕ
count a [] = 0
count a (x ∷ xs) = bit (x == a) + count a xs

pub count-append :
    (wanted : ℕ) (front back : List ℕ)
    → count wanted (front ++ back) ≡ count wanted front + count wanted back
count-append wanted [] back = omega arith
count-append wanted (pid ∷ front) back = omega (arith, count-append wanted front back)

-- Sums over `0 .. n-1`.
abbrev pub sum_below : ℕ → (ℕ → ℕ) → ℕ
sum_below zero f = 0
sum_below (suc n) f = sum_below n f + f n

pub sum_below-le :
    (n : ℕ) (f g : ℕ → ℕ) → ((i : ℕ) → i < n → f i ≤ g i) → sum_below n f ≤ sum_below n g
sum_below-le zero f g h = omega arith
sum_below-le (suc n) f g h =
    omega (arith, sum_below-le n f g (λ i p. h i (omega arith)), h n (omega arith))

pub sum_below-eq :
    (n : ℕ) (f g : ℕ → ℕ) → ((i : ℕ) → i < n → f i ≡ g i) → sum_below n f ≡ sum_below n g
sum_below-eq zero f g h = refl
sum_below-eq (suc n) f g h =
    omega (arith, sum_below-eq n f g (λ i p. h i (omega arith)), h n (omega arith))

pub sum_below-zero : (n : ℕ) → sum_below n (λ i. 0) ≡ 0
sum_below-zero zero = refl
sum_below-zero (suc n) = omega (arith, sum_below-zero n)

pub sum_below-one : (n : ℕ) → sum_below n (λ i. 1) ≡ n
sum_below-one zero = refl
sum_below-one (suc n) = omega (arith, sum_below-one n)

pub sum_below-add :
    (n : ℕ) (f g : ℕ → ℕ) → sum_below n (λ i. f i + g i) ≡ sum_below n f + sum_below n g
sum_below-add zero f g = refl
sum_below-add (suc n) f g = omega (arith, sum_below-add n f g)

-- A sum changes by what changes at one index.
pub sum_below-bit : (n a : ℕ) → a < n → sum_below n (λ i. bit (a == i)) ≡ 1
sum_below-bit zero a h = absurd (omega arith)
sum_below-bit (suc n) a h = ground (arith, sum_below-bit n a, none_below n a)
  where
    none_below : (m b : ℕ) → m ≤ b → sum_below m (λ i. bit (b == i)) ≡ 0
    none_below zero b p = refl
    none_below (suc m) b p = ground (arith, none_below m b)

-- A list of indices below `n` is as long as the sum of their numbers of occurrences.
pub length-eq-sum_count :
    (n : ℕ) (xs : List ℕ) → All (λ x. x < n) xs → length xs ≡ sum_below n (λ i. count i xs)
length-eq-sum_count n [] h = omega (arith, sum_below-zero n)
length-eq-sum_count n (x ∷ xs) h = omega (
  arith,
  sum_below-add n (λ i. bit (x == i)) (λ i. count i xs),
  sum_below-bit n x h.0,
  length-eq-sum_count n xs h.1,
)

-- Two sums whose terms differ at one index below `n`.
pub sum_below-change :
    (n i : ℕ) (f g : ℕ → ℕ)
    → i < n
    → ((j : ℕ) → j ≢ i → f j ≡ g j)
    → sum_below n f + g i ≡ sum_below n g + f i
sum_below-change zero i f g h same = absurd (omega arith)
sum_below-change (suc n) i f g h same = elim (ℕ_discrete i n) [
  | yes e ↦ rw e (omega (arith, sum_below-eq n f g (λ j p. same j (λ q. omega (arith, q, e)))))
  | no ne ↦ omega (arith, sum_below-change n i f g (omega arith) same, same n (λ q. ne (sym q)))
]

-- The lists `f 0`, …, `f (n-1)` one after the other.
abbrev pub join_below : ℕ → (ℕ → List ℕ) → List ℕ
join_below zero f = []
join_below (suc n) f = join_below n f ++ f n

pub count-join_below :
    (n : ℕ) (f : ℕ → List ℕ) (a : ℕ) → count a (join_below n f) ≡ sum_below n (λ i. count a (f i))
count-join_below zero f a = refl
count-join_below (suc n) f a =
    omega (arith, count-append a (join_below n f) (f n), count-join_below n f a)

pub length-join_below :
    (n : ℕ) (f : ℕ → List ℕ) → length (join_below n f) ≡ sum_below n (λ i. length (f i))
length-join_below zero f = refl
length-join_below (suc n) f =
    omega (arith, length-append (join_below n f) (f n), length-join_below n f)

pub term-le-sum_below : (n i : ℕ) (f : ℕ → ℕ) → i < n → f i ≤ sum_below n f
term-le-sum_below zero i f h = absurd (omega arith)
term-le-sum_below (suc n) i f h = elim (ℕ_discrete i n) [
  | yes e ↦ rw e (omega arith)
  | no ne ↦ omega (arith, term-le-sum_below n i f (omega arith))
]
