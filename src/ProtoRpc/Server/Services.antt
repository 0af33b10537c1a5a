-- ===== src/ProtoRpc/Server/Services.antt =====
-- proto_rpc/lib/rpc_server.cpp: looking up in the map of services behind a registration.
use boost_practice.Base.{Bool-cases, true, false, some, ◌≡◌, same_text, if◌then◌else◌}
use boost_practice.Base.{
  sym, ◌∙◌, ℕ, ◌≡◌, refl, Bool, true, false, List, [], ◌∷◌, some, if◌then◌else◌, same_text,
  same_text_iff, Bool-cases, inl, inr,
}
use boost_practice.ProtoRpc.Session.{Service, find_service}
use boost_practice.ProtoRpc.Server.{if◌then◌else◌, ℕ, List, Bool, put_service}

shadowed {ℓ} :
    {A : Type ℓ} (b : Bool) (x y z : A)
    → (if b then x else z) ≡ (if b then x else (if b then y else z))
shadowed true x y z = refl
shadowed false x y z = refl

other_name :
    (key name other : List ℕ)
    → same_text key name ≡ false
    → same_text key other ≡ true
    → same_text name other ≡ false
other_name key name other miss there = elim (Bool-cases (same_text name other)) [
  | inl hit ↦
      let e1 = (same_text_iff key other).0 there in
      let e2 = (same_text_iff name other).0 hit in
      let e3 : same_text key name ≡ true = (same_text_iff key name).1 (e1 ∙ sym e2) in
      absurd (cc e3)
  | inr differ ↦ differ
]

-- A registered service is found under its name, in place of one that had the name before; other names
-- find what they found.
pub find-put :
    (name other : List ℕ) (service : Service) (xs : List (List ℕ × Service))
    → find_service other (put_service name service xs)
      ≡ (if same_text name other then some service else find_service other xs)
unfolding put_service
find-put name other service [] = refl
find-put name other service ((key, s) ∷ rest) = elim (Bool-cases (same_text key name)) [
  | inl hit ↦
      let e : key ≡ name = (same_text_iff key name).0 hit in
      rw (hit, e)
        (shadowed (same_text name other) (some service) (some s) (find_service other rest))
  | inr miss ↦ rw miss (elim (Bool-cases (same_text key other)) [
    | inl there ↦ rw (there, other_name key name other miss there) refl
    | inr elsewhere ↦ rw elsewhere (find-put name other service rest)
  ])
]
