-- ===== src/AsioRpc/Client/Life.antt =====
-- asio_rpc_practice/client/rpc_client.cpp: a client over its whole life, as a relation on its states:
-- no response is taken twice.
use boost_practice.Base.{
  ℕ, suc, ◌+◌, ◌%◌, ◌^◌, ◌<◌, ◌≡◌, refl, sym, ap, subst, Bool, true, false, List, [], ◌∷◌, map,
  length, take, Option, none, some, ok, check, leb, ltb, first_returns, arith, Bool-cases, inl, inr,
}
use mathlib.Core.List.{map-append}
use boost_practice.Buffer.{BufferApi, checked_retrieve}
use boost_practice.Frame.{to_size, size_total}
use boost_practice.Frame.Output.{put_frame}
use boost_practice.Frame.Total.{drain_keeps}
use boost_practice.Pending.{find_call, erase_call, put_call}
use boost_practice.Pending.Laws.{Below}
use boost_practice.Pending.Once.{Unique, Once, run-Once, IsNew, enter-Once}
use boost_practice.AsioRpc.Message.{Test, TestLibrary}
use boost_practice.AsioRpc.Client.{
  Client, rpc_client, run, do_read, on_connect, on_send, on_solved, waiting_call, on_frame, on_read,
  call_method, send_request,
}

module _ ⦃api : BufferApi⦄ where
  open api use {readable, append}

  -- The responses that have been printed, by the addresses of their objects.
  abbrev pub printed : Client → List ℕ
  printed c = map (λ (x : ℕ × Test). x.0) c.solved

  abbrev pub IsOnce : Client → Type 0
  IsOnce c = Once (λ response. some response) c.id c.res_calls (printed c)

  -- The counter, the calls and what has been printed are the same.
  abbrev Keeps : Client → Client → Type 0
  Keeps c c' = (c'.id ≡ c.id) × (c'.res_calls ≡ c.res_calls) × (c'.solved ≡ c.solved)

  returned : (P : Client → Type 0) (c c' : Client) → ok c ≡ ok c' → P c → P c'
  returned P c c' e h = let same : c ≡ c' = cc e in subst P same h

  on_send-Keeps : (ec : Bool) (bytes : ℕ) (c c' : Client) → on_send ec bytes c ≡ ok c' → Keeps c c'
  unfolding on_send
  on_send-Keeps true bytes c c' e = returned (Keeps c) _ c' e (refl, refl, refl)
  on_send-Keeps false bytes c c' e =
      let (b, _, e1) = first_returns _ (checked_retrieve c.output_buffer bytes) e in
      elim (Bool-cases (ltb 0 (length (readable b)))) [
        | inl more ↦ returned (Keeps c) _ c' (rw more at e1) (refl, refl, refl)
        | inr over ↦ returned (Keeps c) _ c' (rw over at e1) (refl, refl, refl)
      ]

  Keeps-IsOnce : (c c' : Client) → Keeps c c' → IsOnce c → IsOnce c'
  Keeps-IsOnce c c' k h =
      let same : printed c ≡ printed c' = ap (map (λ (x : ℕ × Test). x.0)) (sym k.2) in
      subst (λ n. Once (λ response. some response) n c'.res_calls (printed c')) (sym k.0)
        (subst (λ x. Once (λ response. some response) c.id x (printed c')) (sym k.1)
          (subst (λ x. Once (λ response. some response) c.id c.res_calls x) same h))

  module _ ⦃lib : TestLibrary⦄ where
    open lib use {parse, serialize}

    waiting_call-some : (o : Option ℕ) (r : ℕ) → waiting_call o ≡ ok r → o ≡ some r
    waiting_call-some none r e = absurd (cc e)
    waiting_call-some (some q) r e = cc e

    on_frame-IsOnce : (w : ℕ) (c c' : Client) → on_frame w c ≡ ok c' → IsOnce c → IsOnce c'
    unfolding on_frame on_solved
    on_frame-IsOnce w c c' e h =
        let (b, _, e1) = first_returns _ (checked_retrieve c.input_buffer 4) e in
        let res = parse (readable b) in
        let (response, found, e2) =
          first_returns _ (waiting_call (find_call res.id c.res_calls)) e1 in
        let (b', _, e3) = first_returns _ (checked_retrieve b (to_size w)) e2 in
        let after =
          run-Once (λ r. some r) c.id res.id c.res_calls (printed c) response response
            (waiting_call-some (find_call res.id c.res_calls) response found) refl h in
        let more = map-append (λ (x : ℕ × Test). x.0) c.solved ((response, res) ∷ []) in
        returned IsOnce _ c' e3
          (subst (λ x. Once (λ r. some r) c.id (erase_call res.id c.res_calls) x) (sym more) after)

    on_read-IsOnce :
        (ec : Bool) (bytes : ℕ) (read_buffer : List ℕ) (c c' : Client)
        → on_read ec bytes read_buffer c ≡ ok c'
        → IsOnce c
        → IsOnce c'
    unfolding on_read do_read
    on_read-IsOnce true bytes read_buffer c c' e h = returned IsOnce _ c' e h
    on_read-IsOnce false bytes read_buffer c c' e h =
        let (_, _, e1) = first_returns _ (check (leb bytes (length read_buffer))) e in
        let input = append c.input_buffer (take bytes read_buffer) in
        let (t, drained, e2) = first_returns _ _ e1 in
        let kept : IsOnce t =
          drain_keeps 4 size_total (λ (u : Client). u.input_buffer) on_frame IsOnce on_frame-IsOnce
            (suc (length (readable input))) (record c { input_buffer = input }) t drained h in
        returned IsOnce (do_read t) c' e2 kept

    send_request-IsOnce :
        (msg : List ℕ) (response : ℕ) (c c' : Client)
        → send_request msg response c ≡ ok c'
        → c.id + 1 < 2 ^ 32
        → IsNew (λ r. some r) response c.res_calls (printed c)
        → IsOnce c
        → IsOnce c'
    unfolding send_request call_method
    send_request-IsOnce msg response c c' e room new h =
        let (b, _, e1) =
          first_returns _
            (put_frame c.output_buffer (serialize (record { id = c.id; message = msg }))) e in
        let next : suc c.id ≡ (c.id + 1) % 2 ^ 32 = omega arith in
        returned IsOnce _ c' e1 (
          subst (λ n. Once (λ r. some r) n (put_call c.id response c.res_calls) (printed c)) next
            (enter-Once (λ r. some r) c.id c.res_calls (printed c) response response refl new h))

    -- One operation of the client: a request with a response object of its own, as long as the
    -- counter of the identifiers has not come round, or a completed connect, read or write.
    pub data Step : Client → Client → Type 0 where
      running : {c : Client} → Step c (run c)
      connected : {c : Client} (ec : Bool) → Step c (on_connect ec c)
      sending :
          {c c' : Client} (msg : List ℕ) (response : ℕ)
          → c.id + 1 < 2 ^ 32
          → IsNew (λ r. some r) response c.res_calls (printed c)
          → send_request msg response c ≡ ok c'
          → Step c c'
      reading :
          {c c' : Client} (ec : Bool) (bytes : ℕ) (read_buffer : List ℕ)
          → on_read ec bytes read_buffer c ≡ ok c'
          → Step c c'
      sent : {c c' : Client} (ec : Bool) (bytes : ℕ) → on_send ec bytes c ≡ ok c' → Step c c'

    pub data Reachable : Client → Type 0 where
      fresh : Reachable rpc_client
      after : {c c' : Client} → Reachable c → Step c c' → Reachable c'

    Step-IsOnce : {c c' : Client} → Step c c' → IsOnce c → IsOnce c'
    unfolding run on_connect do_read
    Step-IsOnce running h = h
    Step-IsOnce (connected true) h = h
    Step-IsOnce (connected false) h = h
    Step-IsOnce {c} {c'} (sending msg response room new e) h =
        send_request-IsOnce msg response c c' e room new h
    Step-IsOnce {c} {c'} (reading ec bytes read_buffer e) h =
        on_read-IsOnce ec bytes read_buffer c c' e h
    Step-IsOnce {c} {c'} (sent ec bytes e) h = Keeps-IsOnce c c' (on_send-Keeps ec bytes c c' e) h

    Reachable-IsOnce : (c : Client) → Reachable c → IsOnce c
    unfolding rpc_client find_call
    Reachable-IsOnce c fresh = record {
      below = tt;
      unique = tt;
      apart = λ id w k e d. absurd (cc e);
      own = λ id id' w w' k e e' d d'. absurd (cc e);
    }
    Reachable-IsOnce c (after {c = b} rest step) = Step-IsOnce step (Reachable-IsOnce b rest)

    -- Whatever the server sends, and however the client's requests come between, each with a
    -- response object of its own: no response object is printed twice, and the requests that wait
    -- have distinct identifiers, as long as the counter has not come round.
    pub Reachable-prints_once :
        (c : Client) → Reachable c → Unique (printed c) × Below c.id c.res_calls
    Reachable-prints_once c h = let once = Reachable-IsOnce c h in (once.unique, once.below)
