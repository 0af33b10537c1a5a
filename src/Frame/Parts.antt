-- ===== src/Frame/Parts.antt =====
-- What the body of a loop finds in a buffer that shows a whole frame, and in one that shows a
-- negative length.
use boost_practice.Base.{
  take-append-drop, length-take, ℕ, ◌+◌, ◌^◌, ◌≤◌, ◌<◌, ◌≡◌, sym, List, ◌++◌, length, length-drop,
  take, drop, ok, fault, Option-cases, le→leb, lt→ltb, le→ltb, ap, ◌∙◌, arith, Option, inl, inr,
}
use boost_practice.Buffer.{BufferApi, of_be32, checked_retrieve, copy_out}
use boost_practice.Frame.{to_size, next_frame, frame, broken}
use boost_practice.Frame.Loop.{IsExact}

pub record Parts (bytes p r : List ℕ) : Type 0 where
  pub positive : of_be32 bytes < 2 ^ 31
  pub fits : of_be32 bytes + 4 ≤ length bytes
  pub payload : p ≡ take (of_be32 bytes) (drop 4 bytes)
  pub follows : r ≡ drop (of_be32 bytes) (drop 4 bytes)

pub frame-Parts :
    (least : ℕ) (total : ℕ → Option ℕ) (bytes : List ℕ) {p r : List ℕ}
    → IsExact total
    → 4 ≤ least
    → next_frame least total bytes ≡ frame p r
    → Parts bytes p r
unfolding next_frame
frame-Parts least total bytes exact h e = elim (Option-cases (total (of_be32 bytes))) [
  | inl over ↦ ground arith
  | inr (n, fits) ↦ ground (arith, length-drop 4 bytes, exact (of_be32 bytes) n)
]

-- The payload has the length that stands before it, and what follows it is the rest.
pub Parts-split :
    (bytes : List ℕ) {p r : List ℕ}
    → Parts bytes p r
    → (drop 4 bytes ≡ p ++ r) × (length p ≡ of_be32 bytes)
Parts-split bytes {p} {r} parts =
    let w = of_be32 bytes in
    (
      sym (take-append-drop w (drop 4 bytes)) ∙ rw (← parts.payload, ← parts.follows),
      ap length parts.payload
          ∙ length-take w (drop 4 bytes)
          ∙ omega (arith, length-drop 4 bytes, parts.fits),
    )

pub broken_long :
    (least : ℕ) (total : ℕ → Option ℕ) (bytes : List ℕ)
    → next_frame least total bytes ≡ broken
    → least ≤ length bytes
unfolding next_frame
broken_long least total bytes e = ground arith

pub to_size_lem : (w : ℕ) → w < 2 ^ 31 → to_size w ≡ w
to_size_lem w h = ground arith

pub to_size_negative : (w : ℕ) → 2 ^ 31 ≤ w → 2 ^ 63 ≤ to_size w
to_size_negative w h = ground arith

module _ ⦃api : BufferApi⦄ where
  open api use {Buffer, readable, retrieve, readable-retrieve, peek_int32, peek_int32_lem}

  pub checked_retrieve_lem :
      (b : Buffer) (n : ℕ) → n ≤ length (readable b) → checked_retrieve b n ≡ ok (retrieve b n)
  checked_retrieve_lem b n h = rw (le→leb n (length (readable b)) h)

  pub copy_out_lem :
      (b : Buffer) (n : ℕ)
      → n < 2 ^ 63
      → n ≤ length (readable b)
      → copy_out b n ≡ ok (take n (readable b))
  copy_out_lem b n k h = rw (lt→ltb n (2 ^ 63) k, le→leb n (length (readable b)) h)

  pub copy_out_over : (b : Buffer) (n : ℕ) → 2 ^ 63 ≤ n → copy_out b n ≡ fault
  copy_out_over b n h = rw (le→ltb n (2 ^ 63) h)

  -- A negative length is more than `max_size()` of a string, as a `size_t`.
  pub copy_out_negative :
      (b b' : Buffer)
      → 4 ≤ length (readable b)
      → 2 ^ 31 ≤ of_be32 (readable b)
      → copy_out b' (to_size (peek_int32 b)) ≡ fault
  copy_out_negative b b' h n =
      rw (peek_int32_lem b h) (copy_out_over b' _ (to_size_negative (of_be32 (readable b)) n))

  module _ (b : Buffer) {p r : List ℕ} (parts : Parts (readable b) p r) where
    pub peek-Parts : to_size (peek_int32 b) ≡ of_be32 (readable b)
    peek-Parts =
        rw (peek_int32_lem b (omega arith)) (to_size_lem (of_be32 (readable b)) (omega arith))

    pub retrieve-Parts : checked_retrieve b 4 ≡ ok (retrieve b 4)
    retrieve-Parts = checked_retrieve_lem b 4 (omega arith)

    content : readable (retrieve b 4) ≡ drop 4 (readable b)
    content = readable-retrieve b 4 (omega arith)

    room : of_be32 (readable b) ≤ length (readable (retrieve b 4))
    room = omega (arith, ap length content, length-drop 4 (readable b))

    pub copy_out-Parts : copy_out (retrieve b 4) (of_be32 (readable b)) ≡ ok p
    copy_out-Parts =
        copy_out_lem (retrieve b 4) (of_be32 (readable b)) (omega arith) room
        ∙ rw (content, parts.payload)

    pub retrieve_payload-Parts :
        checked_retrieve (retrieve b 4) (of_be32 (readable b))
        ≡ ok (retrieve (retrieve b 4) (of_be32 (readable b)))
    retrieve_payload-Parts = checked_retrieve_lem (retrieve b 4) (of_be32 (readable b)) room

    pub readable-Parts : readable (retrieve (retrieve b 4) (of_be32 (readable b))) ≡ r
    readable-Parts =
        readable-retrieve (retrieve b 4) (of_be32 (readable b)) room ∙ rw (content, parts.follows)
