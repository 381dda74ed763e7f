-- ===== src/Http/ConnInit.antt =====
-- The descriptor of a `TcpConn` of http/tcp_conn.cc behind `Init` and `Close`.
use tinyco.Prelude.{
  ℕ, ◌<◌, ◌≡◌, refl, ◌⊎◌, inl, inr, false, Option, none, some, arith, ◌==◌, Bool-cases,
  Option-cases, ℤ, pos, neg, is_neg, Bytes, codes,
}
use mathlib.Core.Path.{subst}
use tinyco.Http.Conn.{
  System, TcpConn, State, close, set_blocking, give_up, init, init_connect, init_socket,
}

module _ {W : Type 0} (sys : System W) where
  -- Closing a connection twice closes its descriptor once.
  pub close_idem : (s : State sys) → close sys (close sys s) ≡ close sys s
  unfolding close
  close_idem (c, w) = ground arith

  -- A code of 0 comes with the descriptor, any other with none.
  abbrev pub Settled : Option ℕ → ℤ × State sys → Type 0
  Settled fd (ret, (c, w)) = ((ret ≡ pos 0) × (c.fd ≡ fd)) ⊎ ((ret ≡ neg 1) × (c.fd ≡ none))

  set_blocking-fd : (n : ℕ) (s : State sys) → (set_blocking sys false n s).1.0.fd ≡ s.0.fd
  unfolding set_blocking
  set_blocking-fd n (c, w) = ground arith

  init_connect-Settled :
      (n ip port : ℕ) (s : State sys) → Settled s.0.fd (init_connect sys n ip port s)
  unfolding init_connect close
  init_connect-Settled n ip port (c, w) = ground arith

  give_up-Settled : (text : Bytes) (fd : Option ℕ) (s : State sys) → Settled fd (give_up sys text s)
  unfolding give_up close
  give_up-Settled text fd (c, w) = inr (refl, refl)

  init_socket-Settled :
      (n ip port : ℕ) (s : State sys) → Settled s.0.fd (init_socket sys n ip port s)
  unfolding init_socket
  init_socket-Settled n ip port s = elim (Bool-cases (is_neg (set_blocking sys false n s).0)) [
    | inl e ↦
        rw e (give_up-Settled (codes "|SetBlocking error") s.0.fd (set_blocking sys false n s).1)
    | inr e ↦ rw e (
        subst (λ fd. Settled fd (init_connect sys n ip port (set_blocking sys false n s).1))
          (set_blocking-fd n s) (init_connect-Settled n ip port (set_blocking sys false n s).1))
  ]

  -- `Init` with an address and a port either returns 0 and the connection has the new socket, or it
  -- returns -1 and the connection has none.
  pub init-Settled :
      (ip port : ℕ) (ct rt wt : ℤ) (c : TcpConn) (w : W)
      → 0 < ip
      → 0 < port
      → Settled (sys.socket w).0 (init sys ip port ct rt wt (c, w))
  unfolding init
  init-Settled ip port ct rt wt c w i p =
      let zero₁ : (ip == 0) ≡ false = ground arith in
      let zero₂ : (port == 0) ≡ false = ground arith in
      elim (Option-cases (sys.socket w).0) [
        | inl e ↦ rw (zero₁, zero₂, e) (inr (refl, refl))
        | inr (n, e) ↦
            rw (zero₁, zero₂, e)
              (init_socket-Settled n ip port (
                record c {
                  ip = ip;
                  port = port;
                  connect_timeout = ct;
                  read_timeout = rt;
                  write_timeout = wt;
                  fd = some n;
                },
                (sys.socket w).1,
              ))
      ]
