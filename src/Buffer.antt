-- ===== src/Buffer.antt =====
-- The byte buffer of the sessions, as an interface. `common/Buffer.h` is a copy of muduo's
-- net/Buffer.h, so its class is a parameter here: its operations, and what its documentation and
-- assertions promise of them. `Inputs.list_buffer` shows that the promises can be met.
use boost_practice.Base.{
  ℕ, ◌+◌, ◌-◌, ◌*◌, ◌/◌, ◌%◌, ◌^◌, ◌≤◌, ◌<◌, ◌≡◌, List, [], ◌∷◌, ◌++◌, length, take, drop, Run, ok,
  ◌>>◌, check, leb, ltb,
}

-- `kCheapPrepend`.
abbrev pub cheap_prepend : ℕ
cheap_prepend = 8

-- The four bytes of an `int32_t`, given by its bit pattern, in network order.
abbrev pub be32 : ℕ → List ℕ
be32 w = (w / 2 ^ 24 % 256) ∷ (w / 2 ^ 16 % 256) ∷ (w / 2 ^ 8 % 256) ∷ (w % 256) ∷ []

-- The bit pattern of the `int32_t` that the first four bytes spell in network order.
abbrev pub of_be32 : List ℕ → ℕ
of_be32 (a ∷ b ∷ c ∷ d ∷ _) = ((a * 256 + b) * 256 + c) * 256 + d
of_be32 _ = 0

-- `readable` is what `peek()` and `readableBytes()` show, `prependable` is `prependableBytes()`.
-- `append` makes room first, which may move the content back to offset 8.
pub record BufferApi : Type 1 where
  pub Buffer : Type 0
  pub create : Buffer
  pub readable : Buffer → List ℕ
  pub prependable : Buffer → ℕ
  pub append : Buffer → List ℕ → Buffer
  pub retrieve : Buffer → ℕ → Buffer
  pub prepend : Buffer → List ℕ → Buffer
  pub peek_int32 : Buffer → ℕ
  pub readable-create : readable create ≡ []
  pub prependable-create : prependable create ≡ cheap_prepend
  pub readable-append : (b : Buffer) (d : List ℕ) → readable (append b d) ≡ readable b ++ d
  pub prependable-append :
      (b : Buffer) (d : List ℕ)
      → prependable b ≤ cheap_prepend
      → prependable (append b d) ≡ prependable b
  pub readable-retrieve :
      (b : Buffer) (n : ℕ) → n ≤ length (readable b) → readable (retrieve b n) ≡ drop n (readable b)
  pub prependable-retrieve :
      (b : Buffer) (n : ℕ)
      → n < length (readable b)
      → prependable (retrieve b n) ≡ prependable b + n
  pub prependable-retrieve_all :
      (b : Buffer) (n : ℕ) → n ≡ length (readable b) → prependable (retrieve b n) ≡ cheap_prepend
  pub readable-prepend :
      (b : Buffer) (d : List ℕ)
      → length d ≤ prependable b
      → readable (prepend b d) ≡ d ++ readable b
  pub prependable-prepend :
      (b : Buffer) (d : List ℕ)
      → length d ≤ prependable b
      → prependable (prepend b d) ≡ prependable b - length d
  pub peek_int32_lem : (b : Buffer) → 4 ≤ length (readable b) → peek_int32 b ≡ of_be32 (readable b)

-- The operations as the sessions call them, each behind the assertion that it begins with.
module _ ⦃api : BufferApi⦄ where
  open api use {Buffer, readable, prependable, retrieve, prepend}

  abbrev pub checked_retrieve : Buffer → ℕ → Run Buffer
  checked_retrieve b n = do check (leb n (length (readable b))); ok (retrieve b n)

  abbrev pub checked_prepend : Buffer → List ℕ → Run Buffer
  checked_prepend b d = do check (leb (length d) (prependable b)); ok (prepend b d)

  -- `std::string(peek(), n)`: a length beyond `max_size()` throws, and a read past the readable
  -- bytes is undefined.
  abbrev pub copy_out : Buffer → ℕ → Run (List ℕ)
  copy_out b n = do
    check (ltb n (2 ^ 63))
    check (leb n (length (readable b)))
    ok (take n (readable b))
