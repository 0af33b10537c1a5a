-- ===== src/ProtoRpc/Example/Sum.antt =====
-- The sum of `Add` against integers: it is exact as long as every sum on the way fits an `int`.
use boost_practice.Base.{
  ◌↔◌, ltb→le, ltb→lt, ℕ, zero, suc, ◌+◌, ◌*◌, ◌%◌, ◌^◌, ◌≤◌, ◌<◌, ◌≡◌, refl, ◌⊎◌, inl, inr,
  Bool-cases, List, [], ◌∷◌, length, take, All, ok, fault, ltb, arith,
}
use boost_practice.ProtoRpc.Example.{add_int, add_from, add}

-- The value of an `int` plus 2 ^ 31, a natural number.
abbrev pub excess : ℕ → ℕ
excess w = (w + 2 ^ 31) % 2 ^ 32

abbrev pub excess_sum : List ℕ → ℕ
excess_sum [] = 0
excess_sum (w ∷ ws) = excess w + excess_sum ws

-- The sum of the values fits an `int`.
abbrev pub InRange : ℕ → List ℕ → Type 0
InRange a ws =
    (length ws * 2 ^ 31 ≤ excess a + excess_sum ws)
    × (excess a + excess_sum ws < length ws * 2 ^ 31 + 2 ^ 32)

add_int_exact :
    (a b : ℕ)
    → a < 2 ^ 32
    → b < 2 ^ 32
    → 2 ^ 31 ≤ excess a + excess b
    → excess a + excess b < 2 ^ 31 + 2 ^ 32
    → (r : ℕ) × (add_int a b ≡ ok r) × (r < 2 ^ 32) × (excess r + 2 ^ 31 ≡ excess a + excess b)
add_int_exact a b ha hb low high = ((a + b) % 2 ^ 32, ground arith, omega arith, omega arith)

add_int_overflow :
    (a b : ℕ)
    → a < 2 ^ 32
    → b < 2 ^ 32
    → (excess a + excess b < 2 ^ 31) ⊎ (2 ^ 31 + 2 ^ 32 ≤ excess a + excess b)
    → add_int a b ≡ fault
add_int_overflow a b ha hb out = ground arith

range-cases :
    (n : ℕ) → ((2 ^ 31 ≤ n) × (n < 2 ^ 31 + 2 ^ 32)) ⊎ ((n < 2 ^ 31) ⊎ (2 ^ 31 + 2 ^ 32 ≤ n))
range-cases n = elim (Bool-cases (ltb n (2 ^ 31))) [
  | inl low ↦ inr (inl (ltb→lt n (2 ^ 31) low))
  | inr enough ↦ elim (Bool-cases (ltb n (2 ^ 31 + 2 ^ 32))) [
    | inl fits ↦ inl (ltb→le n (2 ^ 31) enough, ltb→lt n (2 ^ 31 + 2 ^ 32) fits)
    | inr high ↦ inr (inr (ltb→le n (2 ^ 31 + 2 ^ 32) high))
  ]
]

-- Either every sum on the way is in range and the result is exact, or one is not.
abbrev pub Exact : ℕ → List ℕ → Type 0
Exact a vs =
    (r : ℕ) × (add_from a vs ≡ ok r)
    × (r < 2 ^ 32)
    × (excess r + length vs * 2 ^ 31 ≡ excess a + excess_sum vs)

abbrev pub Overflows : ℕ → List ℕ → Type 0
Overflows a vs = (n : ℕ) × (n ≤ length vs) × ¬ InRange a (take n vs)

add_from-cases :
    (a : ℕ) (vs : List ℕ)
    → a < 2 ^ 32
    → All (λ v. v < 2 ^ 32) vs
    → Exact a vs ⊎ ((add_from a vs ≡ fault) × Overflows a vs)
unfolding add_from
add_from-cases a [] ha hs = inl (a, refl, ha, omega arith)
add_from-cases a (v ∷ vs) ha hs = elim (range-cases (excess a + excess v)) [
  | inl (low, high) ↦
      let (r, e, hr, same) = add_int_exact a v ha hs.0 low high in
      elim (add_from-cases r vs hr hs.1) [
        | inl (r', e', hr', same') ↦ inl (r', rw e e', hr', omega (arith, same, same'))
        | inr (e', (n, le, out)) ↦ inr (
          rw e e',
          (suc n, omega arith, λ (l, h). out (omega (arith, same), omega (arith, same))),
        )
      ]
  | inr out ↦ inr (
    rw (add_int_overflow a v ha hs.0 out),
    (
      1,
      omega arith,
      λ (l, h). elim out [ inl low ↦ absurd (omega arith) | inr high ↦ absurd (omega arith) ],
    ),
  )
]

add_from_overflow :
    (a : ℕ) (vs : List ℕ) (n : ℕ)
    → a < 2 ^ 32
    → All (λ v. v < 2 ^ 32) vs
    → n ≤ length vs
    → ¬ InRange a (take n vs)
    → add_from a vs ≡ fault
unfolding add_from
add_from_overflow a vs zero ha hs le out = absurd (out (omega arith, omega arith))
add_from_overflow a [] (suc n) ha hs le out = absurd (omega arith)
add_from_overflow a (v ∷ vs) (suc n) ha hs le out = elim (range-cases (excess a + excess v)) [
  | inl (low, high) ↦
      let (r, e, hr, same) = add_int_exact a v ha hs.0 low high in
      rw e (
        add_from_overflow r vs n hr hs.1 (omega arith)
          (λ (l, h). out (omega (arith, same), omega (arith, same))))
  | inr beyond ↦ rw (add_int_overflow a v ha hs.0 beyond)
]

-- `Add`, on any numbers: it overflows exactly if the sum of the first `n` of them, for some `n`, is
-- no `int`, and if not, its result is an `int` and the exact sum of the integers.
pub add_lem :
    (values : List ℕ)
    → All (λ v. v < 2 ^ 32) values
    → (Exact 0 values ⊎ (add values ≡ fault)) × ((add values ≡ fault) ↔ Overflows 0 values)
unfolding add
add_lem values hs = elim (add_from-cases 0 values (omega arith) hs) [
  | inl exact ↦ (
    inl exact,
    (
      λ e. absurd (cc (exact.1, e)),
      λ (n, le, out). add_from_overflow 0 values n (omega arith) hs le out,
    ),
  )
  | inr (e, over) ↦ (inr e, (λ _. over, λ _. e))
]

-- A sum that is returned is an `int`.
pub add-lt :
    (values : List ℕ) (sum : ℕ) → All (λ v. v < 2 ^ 32) values → add values ≡ ok sum → sum < 2 ^ 32
unfolding add
add-lt values sum hs e = elim (add_from-cases 0 values (omega arith) hs) [
  | inl (r, exact, small, _) ↦
      let same : ok r ≡ ok sum = cc (exact, e) in
      let eq : r ≡ sum = cc same in omega (arith, small, eq)
  | inr (bad, _) ↦ absurd (cc (bad, e))
]
