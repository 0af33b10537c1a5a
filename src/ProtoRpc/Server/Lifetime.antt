-- ===== src/ProtoRpc/Server/Lifetime.antt =====
-- The threads of a server from its start to its stop.
use boost_practice.Base.{
  ℕ, ◌+◌, ◌-◌, ◌^◌, ◌≤◌, ◌≡◌, refl, Bool, ok, ltb, Bool-cases, inl, inr, arith, ltb→le,
}
use boost_practice.Acceptor.{Setup}
use boost_practice.Buffer.{BufferApi}
use boost_practice.Threads.{spawn_lem}
use boost_practice.ProtoRpc.Server.{Server, rpc_server, set_thread_num, do_accept, run, stop}

module _ ⦃api : BufferApi⦄ where
  -- A server that is given `n` threads starts accepting and starts `n - 1` threads beside the
  -- calling one (none for 0), and its stop joins all of those that it has started, for any `n` up
  -- to 2^31.
  pub run-stop :
      (fails : Setup → Bool) (n : ℕ)
      → n ≤ 2 ^ 31
      → (w : Server) × (run (set_thread_num n (rpc_server fails)) ≡ ok w)
        × (w.accepts ≡ 1)
        × (w.threads ≡ n - 1)
        × ((stop w).joined ≡ n - 1)
  unfolding run stop set_thread_num do_accept rpc_server
  run-stop fails n small =
      let v = do_accept (set_thread_num n (rpc_server fails)) in
      elim (Bool-cases (ltb 1 n)) [
        | inl many ↦ (
          record v { threads = 0 + (n - 1) },
          rw (many, spawn_lem (n - 1) 0 (omega arith)) refl,
          refl,
          omega arith,
          rw many (omega arith),
        )
        | inr one ↦ (
          v,
          rw one refl,
          refl,
          omega (arith, ltb→le 1 n one),
          rw one (omega (arith, ltb→le 1 n one)),
        )
      ]
