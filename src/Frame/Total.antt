-- ===== src/Frame/Total.antt =====
-- The loop of the sessions ends, whatever its body does, as long as each round takes bytes.
use boost_practice.Base.{
  IsDecided, returns, faults, first_returns, subst, ℕ, zero, suc, ◌+◌, ◌≤◌, ◌<◌, ◌≡◌, refl, ap, ◌⊎◌,
  inl, inr, length, length-drop, Option, Run, ok, leb, leb→le, Bool-cases, arith,
}
use boost_practice.Buffer.{BufferApi, checked_retrieve}
use boost_practice.Frame.{Turn, enter, leave, overflow, turn, drain}

Turn-cases : (t : Turn) → (t ≡ enter) ⊎ (t ≡ leave) ⊎ (t ≡ overflow)
Turn-cases enter = inl refl
Turn-cases leave = inr (inl refl)
Turn-cases overflow = inr (inr refl)

module _ ⦃api : BufferApi⦄ where
  open api use {Buffer, readable, peek_int32, retrieve, readable-retrieve}

  pub checked_retrieve-IsDecided : (b : Buffer) (n : ℕ) → IsDecided (checked_retrieve b n)
  checked_retrieve-IsDecided b n = elim (Bool-cases (leb n (length (readable b)))) [
    | inl within ↦ returns (retrieve b n) (rw within)
    | inr beyond ↦ faults (rw beyond)
  ]

  pub checked_retrieve-length :
      (b b' : Buffer) (n : ℕ)
      → checked_retrieve b n ≡ ok b'
      → length (readable b') + n ≡ length (readable b)
  checked_retrieve-length b b' n e = elim (Bool-cases (leb n (length (readable b)))) [
    | inl within ↦
        let fits : n ≤ length (readable b) = leb→le n (length (readable b)) within in
        let same : retrieve b n ≡ b' = cc (rw within at e) in
        omega (
          arith,
          ap (λ t. length (readable t)) same,
          ap length (readable-retrieve b n fits),
          length-drop n (readable b),
        )
    | inr beyond ↦ absurd (cc (rw beyond at e))
  ]

  module _ {S : Type 0} (least : ℕ) (total : ℕ → Option ℕ) (buf : S → Buffer) (body : ℕ → S → Run S)
      (decided : (w : ℕ) (s : S) → IsDecided (body w s))
      (takes : (w : ℕ) (s s' : S)
        → body w s ≡ ok s'
        → length (readable (buf s')) < length (readable (buf s))) where
    pub drain-IsDecided :
        (fuel : ℕ) (s : S)
        → length (readable (buf s)) < fuel
        → IsDecided (drain least total buf body fuel s)
    unfolding drain
    drain-IsDecided zero s h = absurd (omega arith)
    drain-IsDecided (suc fuel) s h =
        let w = peek_int32 (buf s) in
        elim (Turn-cases (turn least total (length (readable (buf s))) w)) [
          | inl enters ↦ elim (decided w s) [
            | returns s' e ↦
                rw (enters, drain) (rw e (drain-IsDecided fuel s' (omega (arith, takes w s s' e))))
            | faults bad ↦ faults (rw (enters, drain) (rw bad))
          ]
          | inr (inl leaves) ↦ returns s (rw (leaves, drain))
          | inr (inr over) ↦ faults (rw (over, drain))
        ]

  -- What a round keeps, the loop keeps.
  pub drain_keeps {ℓ} :
      {S : Type 0} (least : ℕ) (total : ℕ → Option ℕ) (buf : S → Buffer) (body : ℕ → S → Run S)
      (P : S → Type ℓ)
      → ((w : ℕ) (s s' : S) → body w s ≡ ok s' → P s → P s')
      → (fuel : ℕ) (s s' : S) → drain least total buf body fuel s ≡ ok s'
      → P s
      → P s'
  unfolding drain
  drain_keeps least total buf body P keeps zero s s' e h = absurd (cc e)
  drain_keeps least total buf body P keeps (suc fuel) s s' e h =
      let w = peek_int32 (buf s) in
      elim (Turn-cases (turn least total (length (readable (buf s))) w)) [
        | inl enters ↦
            let (t, now, later) =
              first_returns (λ t. drain least total buf body fuel t) (body w s)
                (rw (enters, drain) at e) in
            drain_keeps least total buf body P keeps fuel t s' later (keeps w s t now h)
        | inr (inl leaves) ↦ let same : s ≡ s' = cc (rw (leaves, drain) at e) in subst P same h
        | inr (inr over) ↦ absurd (cc (rw (over, drain) at e))
      ]
