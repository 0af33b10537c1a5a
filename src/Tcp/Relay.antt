-- ===== src/Tcp/Relay.antt =====
-- A line from one chat client to another, through the server.
use boost_practice.Base.{
  ℕ, ◌^◌, ◌<◌, ◌≡◌, ◌≢◌, sym, ap, ◌∙◌, subst, true, false, List, [], ◌∷◌, ◌++◌, length, take, some,
  ok, arith, take_all,
}
use boost_practice.Buffer.{BufferApi}
use boost_practice.Frame.{frame_of, size_total}
use boost_practice.Frame.Relation.{Frames}
use boost_practice.Frame.Encode.{Frames-frame_of, size_total_lem}
use boost_practice.Frame.Output.{IsIdle}
use boost_practice.Tcp.Session.{Session}
use boost_practice.Tcp.Server.{Server, find_session, serve}
use boost_practice.Tcp.Server.Relay.{OthersIdle}
use boost_practice.Tcp.Server.Burst.{serve_relays}
use boost_practice.Tcp.Client.{do_read, Client, send_message, on_read}
use boost_practice.Tcp.Client.Chat.{send_message_idle, on_read_prints}

module _ ⦃api : BufferApi⦄ where
  open api use {readable}

  -- Bytes that arrive behind nothing are all the bytes.
  alone : (b : api.Buffer) (xs : List ℕ) → readable b ≡ [] → readable b ++ take (length xs) xs ≡ xs
  alone b xs e = ap (λ t. t ++ take (length xs) xs) e ∙ take_all xs

  -- A message that is not empty and is shorter than 2^31, sent by one client, read by the server
  -- from the sender's session, whose callback is set, and written by it to another client's
  -- session, is printed by that other client, once. No write is under way at the sender or at any
  -- session but the sender's, and neither the sender's session nor the listener has anything
  -- unread.
  pub message_relayed :
      (sender listener : Client) (v : Server) (a b : ℕ) (s_a s_b : Session) (m : List ℕ)
      → 0 < length m
      → length m < 2 ^ 31
      → IsIdle sender.output_buffer
      → find_session a v.sessions ≡ some s_a
      → s_a.message_cb ≡ true
      → readable s_a.input_buffer ≡ []
      → b ≢ a
      → find_session b v.sessions ≡ some s_b
      → OthersIdle a v.sessions
      → readable listener.input_buffer ≡ []
      → let wire = frame_of m in
        (sender' : Client) × (w : Server) × (s_b' : Session) × (listener' : Client) × (send_message
            m sender
          ≡ ok sender')
        × (sender'.writes ≡ sender.writes ++ wire ∷ [])
        × (serve a false (length wire) wire v ≡ ok w)
        × (find_session b w.sessions ≡ some s_b')
        × (s_b'.writes ≡ s_b.writes ++ wire ∷ [])
        × (on_read false (length wire) wire listener ≡ ok listener')
        × (listener'.printed ≡ listener.printed ++ m ∷ [])
  unfolding do_read
  message_relayed sender listener v a b s_a s_b m some_text short idle here cb unread ne there
        others nothing =
      let wire = frame_of m in
      let frames =
        Frames-frame_of 5 size_total m (omega arith)
          (omega arith, short, size_total_lem (length m) short) in
      let at_server : Frames 5 size_total (readable s_a.input_buffer ++ take (length wire) wire)
          (m ∷ []) [] =
        subst (λ t. Frames 5 size_total t (m ∷ []) []) (sym (alone s_a.input_buffer wire unread))
          frames in
      let at_listener : Frames 5 size_total
          (readable listener.input_buffer ++ take (length wire) wire) (m ∷ []) [] =
        subst (λ t. Frames 5 size_total t (m ∷ []) [])
          (sym (alone listener.input_buffer wire nothing)) frames in
      let (sender', e1, _, w1) = send_message_idle sender m idle short in
      let (w, s_b', e2, f2, w2) =
        serve_relays v a s_a here (length wire) wire (omega arith) cb m [] b s_b short others
          at_server ne there in
      let (listener', e3, _, seen) =
        on_read_prints listener (length wire) wire (omega arith) (m ∷ []) [] at_listener in
      (sender', w, s_b', listener', e1, w1, e2, f2, w2, e3, ap (λ (t : Client). t.printed) seen)
