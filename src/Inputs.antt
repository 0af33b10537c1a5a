-- ===== src/Inputs.antt =====
-- Concrete instances of what the repository takes from elsewhere, for the examples: a buffer that
-- keeps its offset and its content, and a message class whose serialisation can be parsed.
pub mod Library
pub mod Texts
pub mod Web
pub mod Sums
use boost_practice.Base.{
  ℕ, ◌+◌, ◌-◌, ◌≤◌, ◌<◌, ◌≡◌, refl, ap, List, [], ◌∷◌, ◌++◌, length, take, drop, arith,
  if◌then◌else◌, ltb,
}
use boost_practice.Base
use boost_practice.Buffer.{cheap_prepend, of_be32, BufferApi}

-- The content, and the bytes before it.
pub record ListBuffer : Type 0 where
  pub front : ℕ
  pub content : List ℕ

abbrev pub take_out : ListBuffer → ℕ → ListBuffer
take_out b n =
    if ltb n (length b.content)
    then record { front = b.front + n; content = drop n b.content }
    else record { front = cheap_prepend; content = drop n b.content }

pub content-take_out : (b : ListBuffer) (n : ℕ) → (take_out b n).content ≡ drop n b.content
content-take_out b n = ground arith

pub front-take_out :
    (b : ListBuffer) (n : ℕ) → n < length b.content → (take_out b n).front ≡ b.front + n
front-take_out b n h = ground arith

pub front-take_out_all :
    (b : ListBuffer) (n : ℕ) → n ≡ length b.content → (take_out b n).front ≡ cheap_prepend
front-take_out_all b n h = ground arith

instance abbrev pub list_buffer : BufferApi
list_buffer = record {
  Buffer = ListBuffer;
  create = record { front = cheap_prepend; content = [] };
  readable = λ b. b.content;
  prependable = λ b. b.front;
  append = λ b d. record { front = b.front; content = b.content ++ d };
  retrieve = take_out;
  prepend = λ b d. record { front = b.front - length d; content = d ++ b.content };
  peek_int32 = λ b. of_be32 b.content;
  readable-create = refl;
  prependable-create = refl;
  readable-append = λ b d. refl;
  prependable-append = λ b d h. refl;
  readable-retrieve = λ b n h. content-take_out b n;
  prependable-retrieve = front-take_out;
  prependable-retrieve_all = front-take_out_all;
  readable-prepend = λ b d h. refl;
  prependable-prepend = λ b d h. refl;
  peek_int32_lem = λ b h. refl;
}
