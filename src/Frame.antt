-- ===== src/Frame.antt =====
-- Length-prefixed frames, as the sessions cut them out of a byte stream: four bytes of an `int32_t`
-- in network order, then that many bytes. The arithmetic is that of the sessions' tests, and
-- `drain` is the shape of their `while` loops.
pub mod Relation
pub mod Loop
pub mod Encode
pub mod Parts
pub mod Split
pub mod Output
pub mod Total
use boost_practice.Base.{
  ℕ, zero, suc, ◌+◌, ◌-◌, ◌%◌, ◌^◌, ◌≤◌, ◌<◌, ◌≡◌, refl, Bool, true, false, ◌&&◌, List, [], ◌∷◌,
  ◌++◌, length, take, drop, Option, none, some, Run, ok, fault, spent, ◌>>=◌, leb, ltb,
  if◌then◌else◌, arith,
}
use boost_practice.Buffer.{BufferApi, be32, of_be32}

-- An `int32_t`, given by its bit pattern, as a `size_t`: the sign is extended.
abbrev pub to_size : ℕ → ℕ
to_size w = if ltb w (2 ^ 31) then w else w + (2 ^ 64 - 2 ^ 32)

-- `len + sizeof(int32_t)`, a `size_t` that wraps.
unfoldable pub size_total : ℕ → Option ℕ
size_total w = some ((to_size w + 4) % 2 ^ 64)

-- `len + kMinMessageLen` with both an `int`: overflow is undefined (`none`), and the sum is extended
-- to a `size_t` where it is compared with one.
unfoldable pub int_total : ℕ → Option ℕ
int_total w =
    if leb (2 ^ 31 - 4) w && ltb w (2 ^ 31) then none else some (to_size ((w + 4) % 2 ^ 32))

-- What the bytes at hand allow: nothing yet, one frame and what follows it, or a negative length
-- that the test lets pass, or an overflow in it.
pub data Next : Type 0 where
  wait : Next
  frame : List ℕ → List ℕ → Next
  broken : Next

abbrev cut : ℕ → List ℕ → Next
cut w content =
    if ltb w (2 ^ 31)
    then if leb w (length content) then frame (take w content) (drop w content) else wait
    else broken

abbrev measured : List ℕ → Option ℕ → Next
measured bytes none = broken
measured bytes (some n) = if leb n (length bytes) then cut (of_be32 bytes) (drop 4 bytes) else wait

-- `least` bytes are needed before the length is looked at; `total` is the session's arithmetic.
unfoldable pub next_frame : ℕ → (ℕ → Option ℕ) → List ℕ → Next
next_frame least total bytes =
    if leb least (length bytes) then measured bytes (total (of_be32 bytes)) else wait

-- The two tests of a round: the loop enters its body, ends, or has run into an overflow.
pub data Turn : Type 0 where
  enter leave overflow : Turn

abbrev compared : ℕ → Option ℕ → Turn
compared size none = overflow
compared size (some n) = if leb n size then enter else leave

unfoldable pub turn : ℕ → (ℕ → Option ℕ) → ℕ → ℕ → Turn
turn least total size len = if leb least size then compared size (total len) else leave

module _ ⦃api : BufferApi⦄ {S : Type 0} where
  open api use {Buffer, readable, peek_int32}

  -- `while (readableBytes() >= least) { len = peekInt32(); if (readableBytes() >= total(len)) body
  -- else break; }`
  unfoldable pub drain : ℕ → (ℕ → Option ℕ) → (S → Buffer) → (ℕ → S → Run S) → ℕ → S → Run S
  drain least total buf body zero s = spent
  drain least total buf body (suc fuel) s =
      elim (turn least total (length (readable (buf s))) (peek_int32 (buf s))) [
        | enter ↦ body (peek_int32 (buf s)) s >>= λ s'. drain least total buf body fuel s'
        | leave ↦ ok s
        | overflow ↦ fault
      ]

-- A message as it goes over the wire.
abbrev pub frame_of : List ℕ → List ℕ
frame_of m = be32 (length m) ++ m
