-- ===== src/Tcp/Server/Relay.antt =====
-- What the chat server passes on, and to whom.
use boost_practice.Base.{
  ℕ, ◌^◌, ◌<◌, ◌≡◌, ◌≢◌, refl, sym, ◌∙◌, List, [], ◌∷◌, ◌++◌, length, some, ok, arith, ◌==◌,
  if◌then◌else◌, Bool-cases, inl, inr,
}
use boost_practice.Buffer.{BufferApi}
use boost_practice.Frame.{frame_of}
use boost_practice.Frame.Output.{IsIdle}
use boost_practice.Tcp.Session.{Session, send_message}
use boost_practice.Tcp.Session.Write.{send_message_idle}
use boost_practice.Tcp.Server.{broadcast, find_session}

module _ ⦃api : BufferApi⦄ where
  -- Every session but `self` has no write under way.
  abbrev pub OthersIdle : ℕ → List (ℕ × Session) → Type 0
  OthersIdle self [] = Unit {0}
  OthersIdle self ((id, s) ∷ rest) = (id ≢ self → IsIdle s.output_buffer) × OthersIdle self rest

  abbrev pub ids : List (ℕ × Session) → List ℕ
  ids [] = []
  ids ((id, s) ∷ rest) = id ∷ ids rest

  module _ (m : List ℕ) (self : ℕ) (short : length m < 2 ^ 31) where
    broadcast_one :
        (id : ℕ) (s : Session)
        → (id ≢ self → IsIdle s.output_buffer)
        → (s' : Session) × ((if id == self then ok s else send_message m s) ≡ ok s')
          × (id ≡ self → s' ≡ s)
          × (id ≢ self → s'.writes ≡ s.writes ++ frame_of m ∷ [])
    broadcast_one id s idle = elim (Bool-cases (id == self)) [
      | inl same ↦ (s, rw same, λ _. refl, λ ne. absurd (ne (ground arith)))
      | inr other ↦
          let ne : id ≢ self = ground arith in
          let (s', e, _, _, wrote, _) = send_message_idle s m (idle ne) short in
          (s', rw other e, λ same. absurd (ne same), λ _. wrote)
    ]

    -- The broadcast of a message succeeds where the others are idle, keeps the sessions in place,
    -- leaves the sender as it is, and gives each other session one write of the message's frame.
    pub broadcast_reaches :
        (xs : List (ℕ × Session))
        → OthersIdle self xs
        → (ys : List (ℕ × Session)) × (broadcast m self xs ≡ ok ys)
          × (ids ys ≡ ids xs)
          × (find_session self ys ≡ find_session self xs)
          × ((id : ℕ) (s : Session)
              → id ≢ self
              → find_session id xs ≡ some s
              → (s' : Session) × (find_session id ys ≡ some s')
                × (s'.writes ≡ s.writes ++ frame_of m ∷ []))
    unfolding broadcast find_session
    broadcast_reaches [] idle = ([], refl, refl, refl, λ id s ne e. absurd (cc e))
    broadcast_reaches ((id, s) ∷ rest) idle =
        let (s', e, same, wrote) = broadcast_one id s idle.0 in
        let (ys, e', kept, own, others) = broadcast_reaches rest idle.1 in
        (
          (id, s') ∷ ys,
          rw (e, e'),
          rw kept,
          ground (arith, same),
          λ k t ne found. elim (Bool-cases (id == k)) [
            | inl hit ↦
                let same_id : id ≡ k = ground arith in
                let same_s : s ≡ t = ground arith in
                (s', rw hit, wrote (λ q. ne (sym same_id ∙ q)) ∙ rw same_s)
            | inr miss ↦ let (t', f, w) = others k t ne (ground arith) in (t', rw miss f, w)
          ],
        )
