-- ===== src/Sim/ReadyQueue/Contents.antt =====
-- The array operations on ready queues, read as operations on the list of their entries.
use g20_os_lab_project.Common.{
  ℕ, zero, suc, ◌+◌, ◌-◌, ◌<◌, ◌≡◌, ◌≢◌, refl, ap, ap₂, ◌∙◌, ltb, leb, ◌==◌, if◌then◌else◌, update,
  bit, false, sym, ℤ, pos, negsuc, Option, none, some, List, [], ◌∷◌, ◌++◌, length, count,
  count-append, arith, ◌≤ℤ◌, pos_part, update_ne, lt→ltb, inl, inr, Bool-cases,
}
use g20_os_lab_project.Sim.ReadyQueue.{
  ReadyQueue, queue_push, queue_pop, queue_remove_at, shift_down, slice, contents, max_processes,
}

pub length-slice : (f : ℕ → ℕ) (i n : ℕ) → length (slice f i n) ≡ n
length-slice f i zero = refl
length-slice f i (suc n) = ap suc (length-slice f (i + 1) n)

pub length-contents : (q : ReadyQueue) → length (contents q) ≡ q.size
length-contents q = length-slice q.items 0 q.size

slice_ext :
    (f g : ℕ → ℕ) (i k n : ℕ)
    → ((j : ℕ) → j < n → f (i + j) ≡ g (k + j))
    → slice f i n ≡ slice g k n
slice_ext f g i k zero h = refl
slice_ext f g i k (suc n) h =
    ap₂ ◌∷◌ (at f i ∙ h 0 (omega arith) ∙ back g k)
      (slice_ext f g (i + 1) (k + 1) n (λ j p. moved f i j ∙ h (suc j) (omega arith) ∙ back' g k j))
  where
    at : (u : ℕ → ℕ) (x : ℕ) → u x ≡ u (x + 0)
    at u x = ap u (omega arith)

    back : (u : ℕ → ℕ) (x : ℕ) → u (x + 0) ≡ u x
    back u x = ap u (omega arith)

    moved : (u : ℕ → ℕ) (x j : ℕ) → u (x + 1 + j) ≡ u (x + suc j)
    moved u x j = ap u (omega arith)

    back' : (u : ℕ → ℕ) (x j : ℕ) → u (x + suc j) ≡ u (x + 1 + j)
    back' u x j = ap u (omega arith)

slice-add : (f : ℕ → ℕ) (i a b : ℕ) → slice f i (a + b) ≡ slice f i a ++ slice f (i + a) b
slice-add f i zero b = ap₂ (λ x y. slice f x y) (omega arith) (omega arith)
slice-add f i (suc a) b =
    ap (slice f i) sum
    ∙ ap (λ t. f i ∷ t)
        (slice-add f (i + 1) a b ∙ ap (λ x. slice f (i + 1) a ++ slice f x b) (omega arith))
  where
    sum : suc a + b ≡ suc (a + b)
    sum = omega arith

-- Where the shifting loop has moved an entry, and where it has not.
shift_down_lem :
    (f : ℕ → ℕ) (i n j : ℕ)
    → 0 < i
    → shift_down f i n j
      ≡ (if leb i (j + 1) then if ltb (j + 1) (i + n) then f (j + 1) else f j else f j)
unfolding shift_down
shift_down_lem f i zero j h = ground arith
shift_down_lem f i (suc n) j h =
    ground (arith, shift_down_lem (update f (i - 1) (f i)) (i + 1) n j, ap f e)
  where
    e : i - 1 + 1 ≡ i
    e = omega arith

-- Moving the entries from `i + 1` on down by one cuts entry `i` out.
shift_down_before : (f : ℕ → ℕ) (i n : ℕ) → slice (shift_down f (i + 1) n) 0 i ≡ slice f 0 i
shift_down_before f i n =
    slice_ext (shift_down f (i + 1) n) f 0 0 i
      (λ j p. ground (arith, shift_down_lem f (i + 1) n (0 + j)))

shift_down_after : (f : ℕ → ℕ) (i n : ℕ) → slice (shift_down f (i + 1) n) i n ≡ slice f (i + 1) n
shift_down_after f i n =
    slice_ext (shift_down f (i + 1) n) f i (i + 1) n
      (λ j p. ground (arith, shift_down_lem f (i + 1) n (i + j), ap f (e j)))
  where
    e : (j : ℕ) → i + j + 1 ≡ i + 1 + j
    e j = omega arith

-- Cutting entry `i` out of a queue of `n` entries.
slice-split :
    (f : ℕ → ℕ) (n i : ℕ) → i < n → slice f 0 n ≡ slice f 0 i ++ f i ∷ slice f (i + 1) (n - (i + 1))
slice-split f n i h =
    ap (slice f 0) e
    ∙ slice-add f 0 i (suc (n - (i + 1)))
    ∙ ap (λ x. slice f 0 i ++ slice f x (suc (n - (i + 1)))) (zero_plus i)
  where
    e : n ≡ i + suc (n - (i + 1))
    e = omega arith

    zero_plus : (x : ℕ) → 0 + x ≡ x
    zero_plus x = omega arith

shift_down-contents :
    (f : ℕ → ℕ) (n i : ℕ)
    → i < n
    → slice (shift_down f (i + 1) (n - (i + 1))) 0 (n - 1)
      ≡ slice f 0 i ++ slice f (i + 1) (n - (i + 1))
shift_down-contents f n i h =
    ap (slice g 0) e
    ∙ slice-add g 0 i (n - (i + 1))
    ∙ ap₂ ◌++◌ (shift_down_before f i (n - (i + 1)))
        (ap (λ x. slice g x (n - (i + 1))) (zero_plus i) ∙ shift_down_after f i (n - (i + 1)))
  where
    g : ℕ → ℕ
    g = shift_down f (i + 1) (n - (i + 1))

    e : n - 1 ≡ i + (n - (i + 1))
    e = omega arith

    zero_plus : (x : ℕ) → 0 + x ≡ x
    zero_plus x = omega arith

-- `queue_push` appends the pid while there is room, and changes nothing on a full queue.
pub contents-queue_push :
    (q : ReadyQueue) (pid : ℕ)
    → contents (queue_push q pid)
      ≡ (if ltb q.size max_processes then contents q ++ pid ∷ [] else contents q)
unfolding queue_push
contents-queue_push q pid = elim (Bool-cases (ltb q.size max_processes)) [
  | inl room ↦ rw room (pushed q.items q.size)
  | inr full ↦ rw full
]
  where
    same : (f : ℕ → ℕ) (n : ℕ) → slice (update f n pid) 0 n ≡ slice f 0 n
    same f n = slice_ext (update f n pid) f 0 0 n (λ j p. update_ne f n (0 + j) pid (omega arith))

    pushed : (f : ℕ → ℕ) (n : ℕ) → slice (update f n pid) 0 (n + 1) ≡ slice f 0 n ++ pid ∷ []
    pushed f n =
        slice-add (update f n pid) 0 n 1 ∙ ap₂ (λ xs x. xs ++ x ∷ []) (same f n) (ground arith)

-- What taking an entry out of a queue gives: the entry at the index, with the others kept in order.
pub record Removed (q q' : ReadyQueue) (i pid : ℕ) : Type 0 where
  pub before : List ℕ
  pub after : List ℕ
  pub old : contents q ≡ before ++ pid ∷ after
  pub new : contents q' ≡ before ++ after
  pub place : length before ≡ i

-- Removing at an index inside the queue returns the entry there; the other entries stay in order,
-- those before the index as they stood.
pub queue_remove_at-Removed :
    (q : ReadyQueue) (i : ℕ)
    → i < q.size
    → (q' : ReadyQueue) × (queue_remove_at q (pos i) ≡ (some (q.items i), q'))
      × (r : Removed q q' i (q.items i)) × (r.before ≡ slice q.items 0 i)
unfolding queue_remove_at
queue_remove_at-Removed q i h = (
  record { items = shift_down q.items (i + 1) (q.size - (i + 1)); size = q.size - 1 },
  rw (guard q.size i h),
  record {
    before = slice q.items 0 i;
    after = slice q.items (i + 1) (q.size - (i + 1));
    old = slice-split q.items q.size i h;
    new = shift_down-contents q.items q.size i h;
    place = length-slice q.items 0 i;
  },
  refl,
)
  where
    guard : (n j : ℕ) → j < n → leb n j ≡ false
    guard n j p = ground arith

-- How often `a` was taken out by a call with this result.
abbrev pub taken : ℕ → Option ℕ → ℕ
taken a none = 0
taken a (some pid) = bit (pid == a)

Removed-count :
    {q q' : ReadyQueue} {i pid : ℕ} (a : ℕ)
    → Removed q q' i pid
    → count a (contents q) ≡ count a (contents q') + bit (pid == a)
Removed-count {q} {q'} {i} {pid} a r = omega (
  arith,
  ap (count a) r.old,
  ap (count a) r.new,
  count-append a r.before (pid ∷ r.after),
  count-append a r.before r.after,
)

-- Entries are neither lost nor made up by `queue_remove_at`, at any index.
pub queue_remove_at-count :
    (q : ReadyQueue) (i : ℤ) (a : ℕ)
    → count a (contents q)
      ≡ count a (contents (queue_remove_at q i).1) + taken a (queue_remove_at q i).0
unfolding queue_remove_at
queue_remove_at-count q (negsuc n) a = omega arith
queue_remove_at-count q (pos i) a = elim (Bool-cases (leb q.size i)) [
  | inl out ↦ rw out (omega arith)
  | inr inside ↦ rw inside (Removed-count {i = i} a (removed (ground arith)))
]
  where
    removed :
        i < q.size
        → Removed q
            (record { items = shift_down q.items (i + 1) (q.size - (i + 1)); size = q.size - 1 })
            i
            (q.items i)
    removed h = record {
      before = slice q.items 0 i;
      after = slice q.items (i + 1) (q.size - (i + 1));
      old = slice-split q.items q.size i h;
      new = shift_down-contents q.items q.size i h;
      place = length-slice q.items 0 i;
    }

-- An index outside the queue, -1 included, takes nothing and changes nothing.
pub queue_remove_at_outside :
    (q : ReadyQueue) (i : ℤ)
    → ¬ (pos 0 ≤ℤ i × (i ≤ℤ pos q.size × (i ≢ pos q.size)))
    → queue_remove_at q i ≡ (none, q)
unfolding queue_remove_at
queue_remove_at_outside q (negsuc n) h = refl
queue_remove_at_outside q (pos i) h = elim (Bool-cases (leb q.size i)) [
  | inl out ↦ rw out
  | inr inside ↦ absurd (h (omega arith, (ground arith, λ e. ground (arith, ap pos_part e))))
]

-- `queue_pop` does nothing on an empty queue, and else takes the front entry.
pub queue_pop-empty : (q : ReadyQueue) → q.size ≡ 0 → queue_pop q ≡ (none, q)
unfolding queue_pop
queue_pop-empty q h = ground arith

pub queue_pop-front :
    (q : ReadyQueue)
    → 0 < q.size
    → ((queue_pop q).0 ≡ some (q.items 0))
      × (contents q ≡ q.items 0 ∷ contents (queue_pop q).1)
      × (suc (queue_pop q).1.size ≡ q.size)
unfolding queue_pop
queue_pop-front q h = elim (Bool-cases (q.size == 0)) [
  | inl nil ↦ absurd (ground arith)
  | inr more ↦ rw more (
    refl,
    slice-split q.items q.size 0 h
        ∙ ap (λ t. q.items 0 ∷ t) (sym (shift_down-contents q.items q.size 0 h)),
    omega arith,
  )
]

pub queue_pop-count :
    (q : ReadyQueue) (a : ℕ)
    → count a (contents q) ≡ count a (contents (queue_pop q).1) + taken a (queue_pop q).0
unfolding queue_pop
queue_pop-count q a = elim (Bool-cases (q.size == 0)) [
  | inl nil ↦ rw nil (omega arith)
  | inr more ↦ rw more (
      omega (
        arith,
        ap (count a) (slice-split q.items q.size 0 (ground arith)),
        ap (count a) (shift_down-contents q.items q.size 0 (ground arith)),
      ))
]

-- With room left a push adds one entry, the pid.
pub queue_push-count :
    (q : ReadyQueue) (pid a : ℕ)
    → q.size < max_processes
    → count a (contents (queue_push q pid)) ≡ count a (contents q) + bit (pid == a)
queue_push-count q pid a h =
    rw contents-queue_push
      (rw (lt→ltb q.size max_processes h) (omega (arith, count-append a (contents q) (pid ∷ []))))

pub queue_push-contents :
    (q : ReadyQueue) (pid : ℕ)
    → q.size < max_processes
    → contents (queue_push q pid) ≡ contents q ++ pid ∷ []
queue_push-contents q pid h = rw contents-queue_push (rw (lt→ltb q.size max_processes h))

pub size-queue_push :
    (q : ReadyQueue) (pid : ℕ)
    → (queue_push q pid).size ≡ (if ltb q.size max_processes then q.size + 1 else q.size)
unfolding queue_push
size-queue_push q pid = ground arith

pub contents-nil : (q : ReadyQueue) → q.size ≡ 0 → contents q ≡ []
contents-nil q h = ap (slice q.items 0) h

pub contents-nonempty :
    (q : ReadyQueue) → 0 < q.size → contents q ≡ q.items 0 ∷ slice q.items 1 (q.size - 1)
contents-nonempty q h = slice-split q.items q.size 0 h
