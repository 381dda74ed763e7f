-- ===== src/Http/Delivery.antt =====
-- What `TcpConn` of http/tcp_conn.cc sends and what it delivers.
use tinyco.Prelude.{
  ℤ-cases, ℕ, zero, suc, ◌-◌, ◌^◌, ◌<◌, ◌≡◌, refl, sym, ap, ◌∙◌, ◌⊎◌, inl, inr, Bool, true, false,
  Option, none, some, [], ◌∷◌, ◌++◌, append-nil, append_assoc, arith, ltb, ◌==◌, if◌then◌else◌,
  Bool-cases, Option-cases, length, take, drop, take-append-drop, ℤ, pos, negsuc, neg, Bytes,
  is_empty,
}
use tinyco.Http.Check.{as_int_small}
use tinyco.Http.Server.{Received, got, closed, failed}
use tinyco.Http.Conn.{
  System, TcpConn, State, send_all, to_send, ensure_open, send, recv_until, deliver,
  send_and_receive, max_recv_size,
}

pub Received-cases : (r : Received) → (r ≡ closed) ⊎ (r ≡ failed) ⊎ ((bs : Bytes) × (r ≡ got bs))
Received-cases (got bs) = inr (inr (bs, refl))
Received-cases closed = inl refl
Received-cases failed = inr (inl refl)

module _ {W : Type 0} (sys : System W) where
  -- `send` takes a front part of what it is given, of the length it returns, and `log` is what the
  -- outside has taken.
  abbrev pub SendsFront : (W → Bytes) → Type 0
  SendsFront log =
      (n k : ℕ) (bytes : Bytes) (w w' : W)
      → sys.send n bytes w ≡ (pos k, w')
      → log w' ≡ log w ++ take k bytes

  send_all-log :
      (log : W → Bytes) (fuel n : ℕ) (left : Bytes) (s s' : State sys)
      → SendsFront log
      → send_all sys fuel n left s ≡ (true, s')
      → log s'.1 ≡ log s.1 ++ left
  unfolding send_all
  send_all-log log zero n [] s s' front e = rw append-nil (ground arith)
  send_all-log log zero n (b ∷ left) s s' front e = absurd (ground arith)
  send_all-log log (suc fuel) n [] s s' front e = rw append-nil (ground arith)
  send_all-log log (suc fuel) n (b ∷ left) (c, w) s' front e =
      elim (ℤ-cases (sys.send n (b ∷ left) w).0) [
        | inl z ↦ absurd (ground arith)
        | inr (inl (k, z)) ↦ elim (Bool-cases (ltb (length (b ∷ left)) (suc k))) [
          | inl o ↦ absurd (ground arith)
          | inr o ↦
              let bytes : Bytes = b ∷ left in
              let w₁ : W = (sys.send n bytes w).1 in
              send_all-log log fuel n (drop (suc k) bytes) (c, w₁) s' front
                (rw (z, o, send_all) at e)
              ∙ ap (λ t. t ++ drop (suc k) bytes) (front n (suc k) bytes w w₁ (ap (λ r. (r, w₁)) z))
              ∙ append_assoc (log w) (take (suc k) bytes) (drop (suc k) bytes)
              ∙ ap (λ t. log w ++ t) (take-append-drop (suc k) bytes)
        ]
        | inr (inr (k, z)) ↦ absurd (ground arith)
      ]

  pub to_send-small : (bytes : Bytes) → length bytes < 2 ^ 31 → to_send bytes ≡ bytes
  unfolding to_send
  to_send-small bytes h =
      let none_before : length bytes - length bytes ≡ 0 = omega arith in
      rw (as_int_small (length bytes) h, to_send, none_before)

  pub ensure_open-fd :
      (n : ℕ) (c : TcpConn) (w : W) → c.fd ≡ some n → ensure_open sys (c, w) ≡ (some n, (c, w))
  unfolding ensure_open
  ensure_open-fd n c w f = ground arith

  abbrev code_of : Bool → Bool → State sys → State sys → ℤ × State sys
  code_of b d s₁ s₂ = if b then (neg 1, s₁) else if d then (pos 0, s₂) else (neg 1, s₂)

  send-code :
      (b d : Bool) (s₁ s₂ s' : State sys) → code_of b d s₁ s₂ ≡ (pos 0, s') → (d ≡ true) × (s₂ ≡ s')
  send-code true d s₁ s₂ s' e = absurd (ground arith)
  send-code false true s₁ s₂ s' e = (refl, ground arith)
  send-code false false s₁ s₂ s' e = absurd (ground arith)

  -- `Send` on an open connection returns 0 only if the whole text, of less than 2 GB, was taken, in its
  -- order and once.
  pub send-log :
      (log : W → Bytes) (n : ℕ) (bytes : Bytes) (c : TcpConn) (w : W) (s' : State sys)
      → SendsFront log
      → c.fd ≡ some n
      → length bytes < 2 ^ 31
      → send sys (some bytes) (c, w) ≡ (pos 0, s')
      → log s'.1 ≡ log w ++ bytes
  unfolding send
  send-log log n bytes c w s' front f h e =
      let e₁ =
        rw (ensure_open-fd n c w f, to_send-small bytes h, send, ensure_open-fd n c w f) at e in
      let run : Bool × State sys = send_all sys (length bytes) n bytes (c, w) in
      let (d, k) = send-code (is_empty bytes) run.0 (c, w) run.1 s' e₁ in
      ap (λ s. log s.1) (sym k)
      ∙ send_all-log log (length bytes) n bytes (c, w) run.1 front (ap (λ b. (b, run.1)) d)

  pub recv_until-checked :
      (func : Bytes → ℤ) (fuel n k : ℕ) (real_buf all : Bytes) (s s' : State sys)
      → recv_until sys func fuel n real_buf s ≡ some (some (pos k, all), s')
      → (func all ≡ pos k) × (0 < k)
  unfolding recv_until
  recv_until-checked func zero n k real_buf all s s' e = absurd (ground arith)
  recv_until-checked func (suc fuel) n k real_buf all (c, w) s' e =
      elim (Received-cases (sys.recv n max_recv_size w).0) [
        | inl z ↦ absurd (ground arith)
        | inr (inl z) ↦ absurd (ground arith)
        | inr (inr (bs, z)) ↦ elim (ℤ-cases (func (real_buf ++ bs))) [
          | inl f ↦
              recv_until-checked func fuel n k (real_buf ++ bs) all
                (c, (sys.recv n max_recv_size w).1) s' (rw (z, f, recv_until) at e)
          | inr (inl (j, f)) ↦ ground arith
          | inr (inr (j, f)) ↦ elim (Bool-cases (j == 1)) [
            | inl o ↦
                recv_until-checked func fuel n k (real_buf ++ bs) all
                  (c, (sys.recv n max_recv_size w).1) s' (rw (z, f, o, recv_until) at e)
            | inr o ↦ absurd (ground arith)
          ]
        ]
      ]

  pub deliver-some :
      (eof : Option (ℤ × Bytes)) (out : Bytes) (s s' : State sys)
      → deliver sys eof s ≡ (pos 0, some out, s')
      → (n : ℕ) × (all : Bytes) × (eof ≡ some (pos n, all)) × (out ≡ take n all)
  unfolding deliver
  deliver-some none out (c, w) s' e = absurd (ground arith)
  deliver-some (some (pos n, all)) out (c, w) s' e = (n, all, refl, ground arith)
  deliver-some (some (negsuc n, all)) out (c, w) s' e = absurd (ground arith)

  -- What a call of `SendAndReceive` gives to its caller is a front part of what the socket received, to
  -- the length, not 0, that the check function said of all of it.
  pub send_and_receive-delivers :
      (func : Bytes → ℤ) (fuel : ℕ) (bytes out : Bytes) (s s' : State sys)
      → send_and_receive sys func fuel (some bytes) true s ≡ some (pos 0, some out, s')
      → (all : Bytes) × (n : ℕ) × (func all ≡ pos n) × (0 < n) × (out ≡ take n all)
  unfolding send_and_receive
  send_and_receive-delivers func fuel bytes out s s' e = elim (Bool-cases (is_empty bytes)) [
    | inl b ↦ absurd (ground arith)
    | inr b ↦ elim (Option-cases (ensure_open sys s).0) [
      | inl o ↦ absurd (ground arith)
      | inr (n, o) ↦
          let sent = send_all sys (length bytes) n (to_send bytes) (ensure_open sys s).1 in
          elim (Bool-cases sent.0) [
            | inr d ↦ absurd (ground arith)
            | inl d ↦ elim (Option-cases (recv_until sys func fuel n [] sent.1)) [
              | inl r ↦ absurd (ground arith)
              | inr (x, r) ↦
                  let e' : deliver sys x.0 x.1 ≡ (pos 0, some out, s') = ground arith in
                  let (k, all, y, q) = deliver-some x.0 out x.1 s' e' in
                  let (f, p) = recv_until-checked func fuel n k [] all sent.1 x.1 (rw y at r) in
                  (all, k, f, p, q)
            ]
          ]
    ]
  ]
