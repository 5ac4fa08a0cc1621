-- ===== src/Kernel/Pipe/Bytes.antt =====
-- A pipe of kernel/pipe.c as a queue of bytes.
use g20_os_lab_project.Common.{
  ℕ, zero, suc, ◌+◌, ◌-◌, ◌%◌, ◌^◌, ◌<◌, ◌≤◌, ◌≡◌, ◌≢◌, refl, ap, ap₂, ◌∙◌, true, false, update,
  update_self, update_ne, List, [], ◌∷◌, ◌++◌, length, arith, ==→ne, ==→eq,
}
use g20_os_lab_project.Kernel.Pipe.{
  Pipe, pipesize, is_full, is_empty, put_byte, take_byte, next_byte,
}

-- The `n` bytes from the read position `r` on.
unfoldable pub span : (ℕ → ℕ) → (r n : ℕ) → List ℕ
span bytes r zero = []
span bytes r (suc n) = bytes (r % pipesize) ∷ span bytes ((r + 1) % 2 ^ 32) n

-- How many bytes are in the pipe, in 32-bit arithmetic, and which.
abbrev pub size : Pipe → ℕ
size p = (p.nwrite + 2 ^ 32 - p.nread) % 2 ^ 32

unfoldable pub contents : Pipe → List ℕ
unfolding span
contents p = span p.bytes p.nread (size p)

pub record IsPipe (p : Pipe) : Type 0 where
  pub nread : p.nread < 2 ^ 32
  pub nwrite : p.nwrite < 2 ^ 32
  pub room : size p ≤ pipesize

-- A write outside of the span.
span-update :
    (bytes : ℕ → ℕ) (r n w ch : ℕ)
    → r < 2 ^ 32
    → ((k : ℕ) → k < n → (r + k) % 2 ^ 32 % pipesize ≢ w)
    → span (update bytes w ch) r n ≡ span bytes r n
unfolding span
span-update bytes r zero w ch small apart = refl
span-update bytes r (suc n) w ch small apart =
    rw
      (
        update_ne bytes w (r % pipesize) ch (λ e. apart 0 (omega arith) (omega (arith, e))),
        span-update bytes ((r + 1) % 2 ^ 32) n w ch (omega arith)
            (λ k h e. apart (k + 1) (omega arith) (omega (arith, e))),
      )
      refl

-- One more byte at the end.
span-end :
    (bytes : ℕ → ℕ) (r n : ℕ)
    → r < 2 ^ 32
    → n < 2 ^ 32
    → span bytes r (suc n) ≡ span bytes r n ++ bytes ((r + n) % 2 ^ 32 % pipesize) ∷ []
unfolding span
span-end bytes r zero small h = ap (λ (x : ℕ). bytes (x % pipesize) ∷ []) (omega arith)
span-end bytes r (suc n) small h =
    ap (λ (xs : List ℕ). bytes (r % pipesize) ∷ xs)
      (span-end bytes ((r + 1) % 2 ^ 32) n (omega arith) (omega arith)
        ∙ ap (λ (x : ℕ). span bytes ((r + 1) % 2 ^ 32) n ++ bytes (x % pipesize) ∷ [])
            (omega arith))

-- A byte that is put into a pipe that is not full becomes the last one of its contents.
pub contents-put_byte :
    (p : Pipe) (ch : ℕ)
    → IsPipe p
    → is_full p ≡ false
    → (contents (put_byte p ch) ≡ contents p ++ ch ∷ []) × IsPipe (put_byte p ch)
unfolding contents put_byte
contents-put_byte p ch v h = (
  ap (span written p.nread) more
      ∙ span-end written p.nread (size p) v.nread (omega arith)
      ∙ ap₂ (λ (xs : List ℕ) (x : ℕ). xs ++ x ∷ [])
          (span-update p.bytes p.nread (size p) (p.nwrite % pipesize) ch v.nread
            (λ k small e. omega (arith, e, room, v.nread, v.nwrite)))
          (ap written last ∙ update_self p.bytes (p.nwrite % pipesize) ch),
  record { nread = v.nread; nwrite = omega arith; room = omega (arith, more, room) },
)
  where
    written : ℕ → ℕ
    written = update p.bytes (p.nwrite % pipesize) ch

    room : size p < pipesize
    room =
        let ne = ==→ne p.nwrite ((p.nread + pipesize) % 2 ^ 32) h in
        omega (arith, ne, v.room, v.nread, v.nwrite)

    more : ((p.nwrite + 1) % 2 ^ 32 + 2 ^ 32 - p.nread) % 2 ^ 32 ≡ suc (size p)
    more = omega (arith, room, v.nread, v.nwrite)

    last : (p.nread + size p) % 2 ^ 32 % pipesize ≡ p.nwrite % pipesize
    last = omega (arith, v.nread, v.nwrite)

-- The next byte of a pipe that is not empty is the first one of its contents.
pub contents-take_byte :
    (p : Pipe)
    → IsPipe p
    → is_empty p ≡ false
    → (contents p ≡ next_byte p ∷ contents (take_byte p)) × IsPipe (take_byte p)
unfolding contents span take_byte
contents-take_byte p v h = (
  ap (span p.bytes p.nread) less,
  record { nread = omega arith; nwrite = v.nwrite; room = omega (arith, less, v.room) },
)
  where
    less : size p ≡ suc ((p.nwrite + 2 ^ 32 - (p.nread + 1) % 2 ^ 32) % 2 ^ 32)
    less = let ne = ==→ne p.nread p.nwrite h in omega (arith, ne, v.nread, v.nwrite)

pub contents_empty : (p : Pipe) → IsPipe p → is_empty p ≡ true → contents p ≡ []
unfolding contents span
contents_empty p v h = ap (span p.bytes p.nread) nothing
  where
    nothing : size p ≡ 0
    nothing = let e = ==→eq p.nread p.nwrite h in omega (arith, e, v.nread, v.nwrite)

length-span : (bytes : ℕ → ℕ) (r n : ℕ) → length (span bytes r n) ≡ n
unfolding span
length-span bytes r zero = refl
length-span bytes r (suc n) = omega (arith, length-span bytes ((r + 1) % 2 ^ 32) n)

pub length-contents : (p : Pipe) → length (contents p) ≡ size p
unfolding contents
length-contents p = length-span p.bytes p.nread (size p)

-- A pipe is full exactly if it holds 512 bytes.
pub is_full_lem : (p : Pipe) → IsPipe p → is_full p ≡ true → length (contents p) ≡ pipesize
is_full_lem p v h =
    let e = ==→eq p.nwrite ((p.nread + pipesize) % 2 ^ 32) h in
    omega (arith, e, v.nread, v.nwrite, length-contents p)
