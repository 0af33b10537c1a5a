-- ===== src/Inputs/Library.antt =====
-- A message class: each text is written behind its length, which is enough to read it back; and
-- the Adler-32 sum of RFC 1950.
use boost_practice.Base.{
  ◌==◌, if◌then◌else◌, ℕ, ◌+◌, ◌*◌, ◌%◌, ◌^◌, ◌<◌, ◌≡◌, refl, List, [], ◌∷◌, ◌++◌, length, take,
  drop, arith, take-length, drop-length,
}
use boost_practice.ProtoRpc.Message.{MessageType, ErrorCode, RpcMessage, RpcLibrary}

abbrev pub type_code : MessageType → ℕ
type_code MessageType.request = 0
type_code MessageType.response = 1
type_code MessageType.error = 2

abbrev pub type_of_code : ℕ → MessageType
type_of_code n =
    if n == 0
    then MessageType.request
    else if n == 1
    then MessageType.response
    else MessageType.error

abbrev pub error_code : ErrorCode → ℕ
error_code ErrorCode.no_error = 0
error_code ErrorCode.invalid_request = 1
error_code ErrorCode.no_service = 2
error_code ErrorCode.no_method = 3
error_code ErrorCode.invalid_checksum = 4

abbrev pub error_of_code : ℕ → ErrorCode
error_of_code n =
    if n == 1
    then ErrorCode.invalid_request
    else if n == 2
    then ErrorCode.no_service
    else if n == 3
    then ErrorCode.no_method
    else if n == 4
    then ErrorCode.invalid_checksum
    else ErrorCode.no_error

type_of_code-type_code : (t : MessageType) → type_of_code (type_code t) ≡ t
type_of_code-type_code MessageType.request = refl
type_of_code-type_code MessageType.response = refl
type_of_code-type_code MessageType.error = refl

error_of_code-error_code : (c : ErrorCode) → error_of_code (error_code c) ≡ c
error_of_code-error_code ErrorCode.no_error = refl
error_of_code-error_code ErrorCode.invalid_request = refl
error_of_code-error_code ErrorCode.no_service = refl
error_of_code-error_code ErrorCode.no_method = refl
error_of_code-error_code ErrorCode.invalid_checksum = refl

-- A text behind its length.
abbrev pub put_text : List ℕ → List ℕ → List ℕ
put_text xs rest = length xs ∷ xs ++ rest

abbrev pub get_text : List ℕ → List ℕ
get_text [] = []
get_text (n ∷ bytes) = take n bytes

abbrev pub skip_text : List ℕ → List ℕ
skip_text [] = []
skip_text (n ∷ bytes) = drop n bytes

get_text-put_text : (xs rest : List ℕ) → get_text (put_text xs rest) ≡ xs
get_text-put_text xs rest = take-length xs rest

skip_text-put_text : (xs rest : List ℕ) → skip_text (put_text xs rest) ≡ rest
skip_text-put_text xs rest = drop-length xs rest

abbrev pub write_message : RpcMessage → List ℕ
write_message m =
    m.id
    ∷ type_code m.type
    ∷ error_code m.error
    ∷ put_text m.service (put_text m.method (put_text m.request (put_text m.response [])))

abbrev pub read_texts : MessageType → ErrorCode → ℕ → List ℕ → RpcMessage
read_texts type error id bytes = record {
  type = type;
  id = id;
  service = get_text bytes;
  method = get_text (skip_text bytes);
  request = get_text (skip_text (skip_text bytes));
  response = get_text (skip_text (skip_text (skip_text bytes)));
  error = error;
}

abbrev pub read_message : List ℕ → RpcMessage
read_message (id ∷ type ∷ error ∷ bytes) =
    read_texts (type_of_code type) (error_of_code error) id bytes
read_message _ = read_texts MessageType.error ErrorCode.no_error 0 []

pub read_message-write_message : (m : RpcMessage) → read_message (write_message m) ≡ m
read_message-write_message m =
    simp (type_of_code-type_code, error_of_code-error_code, skip_text-put_text, get_text-put_text)
      refl

abbrev pub sums : ℕ → ℕ → List ℕ → ℕ
sums a b [] = b * 2 ^ 16 + a
sums a b (x ∷ xs) = sums ((a + x) % 65521) ((b + (a + x) % 65521) % 65521) xs

pub sums-lt : (a b : ℕ) (xs : List ℕ) → a < 65521 → b < 65521 → sums a b xs < 2 ^ 32
sums-lt a b [] ha hb = omega arith
sums-lt a b (x ∷ xs) ha hb =
    sums-lt ((a + x) % 65521) ((b + (a + x) % 65521) % 65521) xs (omega arith) (omega arith)

instance abbrev pub text_library : RpcLibrary
text_library = record {
  serialize = write_message;
  parse = read_message;
  adler32 = sums 1 0;
  parse-serialize = λ m h a b. read_message-write_message m;
  adler32-lt = λ bytes. sums-lt 1 0 bytes (omega arith) (omega arith);
}
