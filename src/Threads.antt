-- ===== src/Threads.antt =====
-- The loops that start the threads: that of `rpc_server::run`, and that of
-- asio_rpc_practice/server/main.cpp.
use boost_practice.Base.{
  fault, refl, true, false, Bool-cases, inl, inr, ltb→lt, Bool-cases, fault, ℕ, zero, suc, ◌+◌, ◌-◌,
  ◌^◌, ◌≤◌, ◌<◌, ◌≡◌, ap, ◌∙◌, Run, ok, spent, ◌>>◌, check, ltb, if◌then◌else◌, arith,
}

-- `for (int i = 0; i < limit; i++) threads_.emplace_back(...)`, from `i` on: the counter is an `int`,
-- whose overflow is undefined.
unfoldable pub spawn : ℕ → ℕ → ℕ → ℕ → Run ℕ
spawn zero i limit threads = spent
spawn (suc fuel) i limit threads =
    let rest = spawn fuel (i + 1) limit (threads + 1) in
    if ltb i limit then (check (ltb (i + 1) (2 ^ 31)) >> rest) else ok threads

spawn_from :
    (fuel i limit threads : ℕ)
    → limit - i < fuel
    → i ≤ limit
    → limit < 2 ^ 31
    → spawn fuel i limit threads ≡ ok (threads + (limit - i))
unfolding spawn
spawn_from zero i limit threads h _ _ = absurd (omega arith)
spawn_from (suc fuel) i limit threads h le small =
    ground (arith, spawn_from fuel (i + 1) limit (threads + 1))

all_of : (n : ℕ) → n - 0 ≡ n
all_of n = omega arith

-- The loop ends, with as many threads more as its limit says, for any limit that an `int` holds.
pub spawn_lem :
    (limit threads : ℕ) → limit < 2 ^ 31 → spawn (suc limit) 0 limit threads ≡ ok (threads + limit)
spawn_lem limit threads small =
    spawn_from (suc limit) 0 limit threads (omega arith) (omega arith) small
    ∙ ap (λ n. ok (threads + n)) (all_of limit)

-- `for (int i = 0; i < v.size(); i++) v.emplace_back(...)`, from `i` on, where `v` has `size`
-- elements.
unfoldable pub grow : ℕ → ℕ → ℕ → Run ℕ
grow zero i size = spent
grow (suc fuel) i size =
    let rest = grow fuel (i + 1) (size + 1) in
    if ltb i size then (check (ltb (i + 1) (2 ^ 31)) >> rest) else ok size

-- Once the vector has an element, that loop never ends: it uses up any fuel below 2^31, and with more
-- the counter overflows.
pub grow_exact :
    (fuel i size : ℕ)
    → i < size
    → i < 2 ^ 31
    → grow fuel i size ≡ (if ltb (fuel + i) (2 ^ 31) then spent else fault)
unfolding grow
grow_exact zero i size h small = ground arith
grow_exact (suc fuel) i size h small = elim (Bool-cases (ltb (i + 1) (2 ^ 31))) [
  | inl more ↦
      let rest = grow_exact fuel (i + 1) (size + 1) (omega arith) (ltb→lt (i + 1) (2 ^ 31) more) in
      let e : fuel + (i + 1) ≡ suc fuel + i = omega arith in
      let turn : ltb i size ≡ true = ground arith in rw (turn, more, rest, e) refl
  | inr over ↦
      let turn : ltb i size ≡ true = ground arith in
      let all : ltb (suc fuel + i) (2 ^ 31) ≡ false = ground arith in rw (turn, over, all) refl
]
