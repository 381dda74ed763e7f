-- ===== src/Http/Received.antt =====
-- What `TcpConn::SendAndReceive` of http/tcp_conn.cc checks is all that it received.
use tinyco.Prelude.{
  ℤ-cases, ℕ, zero, suc, ◌<◌, ◌≡◌, refl, sym, ap, ◌∙◌, inl, inr, true, Option, none, some, [], ◌∷◌,
  ◌++◌, append-nil, append_assoc, arith, ltb, ◌==◌, Bool-cases, Option-cases, length, take, drop, ℤ,
  pos, negsuc, Bytes, is_empty,
}
use tinyco.Http.Server.{got}
use tinyco.Http.Conn.{
  System, TcpConn, State, send_all, to_send, recv_until, deliver, send_and_receive, max_recv_size,
}
use tinyco.Http.Delivery.{recv_until-checked, deliver-some, Received-cases, ensure_open-fd}

module _ {W : Type 0} (sys : System W) where
  -- `rlog` is what was received on the socket: `recv` adds what it gives, and `send` leaves it.
  pub record LogsReceived (rlog : W → Bytes) (n : ℕ) : Type 0 where
    pub by_send : (bytes : Bytes) (w : W) → rlog (sys.send n bytes w).1 ≡ rlog w
    pub by_recv :
        (most : ℕ) (bs : Bytes) (w : W)
        → (sys.recv n most w).0 ≡ got bs
        → rlog (sys.recv n most w).1 ≡ rlog w ++ bs

  send_all-received :
      (rlog : W → Bytes) (fuel n : ℕ) (left : Bytes) (c : TcpConn) (w : W)
      → LogsReceived rlog n
      → rlog (send_all sys fuel n left (c, w)).1.1 ≡ rlog w
  unfolding send_all
  send_all-received rlog zero n left c w h = refl
  send_all-received rlog (suc fuel) n [] c w h = refl
  send_all-received rlog (suc fuel) n (b ∷ left) c w h =
      let w₁ : W = (sys.send n (b ∷ left) w).1 in
      let kept : rlog w₁ ≡ rlog w = h.by_send (b ∷ left) w in
      elim (ℤ-cases (sys.send n (b ∷ left) w).0) [
        | inl z ↦ rw (z, send_all) kept
        | inr (inl (k, z)) ↦ elim (Bool-cases (ltb (length (b ∷ left)) (suc k))) [
          | inl o ↦ rw (z, send_all, o) kept
          | inr o ↦
              rw (z, send_all, o)
                (send_all-received rlog fuel n (drop (suc k) (b ∷ left)) c w₁ h ∙ kept)
        ]
        | inr (inr (k, z)) ↦ rw (z, send_all) kept
      ]

  recv_until-received :
      (rlog : W → Bytes) (func : Bytes → ℤ) (fuel n k : ℕ) (before real_buf all : Bytes)
      (c : TcpConn) (w : W) (s' : State sys)
      → LogsReceived rlog n
      → rlog w ≡ before ++ real_buf
      → recv_until sys func fuel n real_buf (c, w) ≡ some (some (pos k, all), s')
      → rlog s'.1 ≡ before ++ all
  unfolding recv_until
  recv_until-received rlog func zero n k before real_buf all c w s' h l e = absurd (ground arith)
  recv_until-received rlog func (suc fuel) n k before real_buf all c w s' h l e =
      let w₁ : W = (sys.recv n max_recv_size w).1 in
      elim (Received-cases (sys.recv n max_recv_size w).0) [
        | inl z ↦ absurd (ground arith)
        | inr (inl z) ↦ absurd (ground arith)
        | inr (inr (bs, z)) ↦
            let l₁ : rlog w₁ ≡ before ++ (real_buf ++ bs) =
              h.by_recv max_recv_size bs w z
              ∙ ap (λ t. t ++ bs) l
              ∙ append_assoc before real_buf bs in
            elim (ℤ-cases (func (real_buf ++ bs))) [
              | inl f ↦
                  recv_until-received rlog func fuel n k before (real_buf ++ bs) all c w₁ s' h l₁
                    (rw (z, f, recv_until) at e)
              | inr (inl (j, f)) ↦
                  let e₁ = rw (z, f, recv_until) at e in
                  let text : real_buf ++ bs ≡ all = ground arith in
                  let state : (c, w₁) ≡ s' = ground arith in
                  ap (λ s. rlog s.1) (sym state) ∙ l₁ ∙ ap (λ t. before ++ t) text
              | inr (inr (j, f)) ↦ elim (Bool-cases (j == 1)) [
                | inl o ↦
                    recv_until-received rlog func fuel n k before (real_buf ++ bs) all c w₁ s' h l₁
                      (rw (z, f, o, recv_until) at e)
                | inr o ↦ absurd (ground arith)
              ]
            ]
      ]

  deliver-some_state :
      (eof : Option (ℤ × Bytes)) (out : Bytes) (s s' : State sys)
      → deliver sys eof s ≡ (pos 0, some out, s')
      → s'.1 ≡ s.1
  unfolding deliver
  deliver-some_state none out (c, w) s' e = absurd (ground arith)
  deliver-some_state (some (pos n, all)) out (c, w) s' e = ap (λ r. r.2.1) (sym e)
  deliver-some_state (some (negsuc n, all)) out (c, w) s' e = absurd (ground arith)

  -- The same call on an open connection: all that was checked is all that was received.
  pub send_and_receive-received :
      (rlog : W → Bytes) (func : Bytes → ℤ) (fuel n : ℕ) (bytes out : Bytes) (c : TcpConn) (w : W)
      (s' : State sys)
      → LogsReceived rlog n
      → c.fd ≡ some n
      → send_and_receive sys func fuel (some bytes) true (c, w) ≡ some (pos 0, some out, s')
      → (all : Bytes) × (k : ℕ) × (func all ≡ pos k)
        × (0 < k)
        × (out ≡ take k all)
        × (rlog s'.1 ≡ rlog w ++ all)
  unfolding send_and_receive
  send_and_receive-received rlog func fuel n bytes out c w s' h f e =
      let opened = ensure_open-fd sys n c w f in
      let sent = send_all sys (length bytes) n (to_send bytes) (c, w) in
      let e₁ = rw (ap (λ r. r.0) opened, send_and_receive, ap (λ r. r.1) opened) at e in
      elim (Bool-cases (is_empty bytes)) [
        | inl b ↦ absurd (ground arith)
        | inr b ↦ elim (Bool-cases sent.0) [
          | inr d ↦ absurd (ground arith)
          | inl d ↦ elim (Option-cases (recv_until sys func fuel n [] sent.1)) [
            | inl r ↦ absurd (ground arith)
            | inr (x, r) ↦
                let e' : deliver sys x.0 x.1 ≡ (pos 0, some out, s') = ground arith in
                let (k, all, y, q) = deliver-some sys x.0 out x.1 s' e' in
                let r' = rw y at r in
                let (f', p) = recv_until-checked sys func fuel n k [] all sent.1 x.1 r' in
                let start : rlog sent.1.1 ≡ rlog w ++ [] =
                  send_all-received rlog (length bytes) n (to_send bytes) c w h
                  ∙ rw append-nil refl in
                (
                  all,
                  k,
                  f',
                  p,
                  q,
                  ap rlog (deliver-some_state x.0 out x.1 s' e')
                      ∙ recv_until-received rlog func fuel n k (rlog w) [] all sent.1.0 sent.1.1 x.1
                          h start r',
                )
          ]
        ]
      ]
