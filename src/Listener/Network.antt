-- ===== src/Listener/Network.antt =====
-- util/network.cc and util/network.h, util/time.h: wrappers of system calls, whose answers are
-- parameters over a state `W` of the system.
use tinyco.Prelude.{
  ℕ, ◌+◌, ◌*◌, ◌/◌, ◌%◌, ◌^◌, Bool, true, false, Option, none, some, ◌++◌, take, Bytes, codes,
}
use tinyco.Http.Decimal.{to_decimal}
use tinyco.Http.Conn.{blocking_flags}

-- The calls on sockets, with `none` and `false` for a negative result. The text given to `ioctl` is the
-- name of an interface.
pub record SocketApi (W : Type 0) : Type 0 where
  pub socket : Bool → W → Option ℕ × W
  pub get_flags : ℕ → W → Option ℕ × W
  pub set_flags : ℕ → ℕ → W → Bool × W
  pub set_reuse_addr : ℕ → W → Bool × W
  pub bind : ℕ → ℕ → ℕ → W → Bool × W
  pub listen : ℕ → ℕ → W → Bool × W
  pub ioctl : Option ℕ → Bytes → W → Option ℕ × W
  pub close : ℕ → W → W

module _ {W : Type 0} (api : SocketApi W) where
  -- `SetNonBlock`: whether its result is not negative.
  unfoldable pub set_nonblock : ℕ → W → Bool × W
  unfolding blocking_flags
  set_nonblock fd w =
      let (flags, w₁) = api.get_flags fd w in
      elim flags [ none ↦ (false, w₁) | some f ↦ api.set_flags fd (blocking_flags false f) w₁ ]

  -- `GetEthAddr`: the result is true in every case; without an answer the address is what the memory of
  -- `ifr` was.
  unfoldable pub get_eth_addr : ℕ → Bytes → W → Bool × (ℕ × W)
  get_eth_addr memory eth w =
      let (fd, w₁) = api.socket false w in
      let (found, w₂) = api.ioctl fd (take 15 eth) w₁ in
      let w₃ : W = elim fd [ none ↦ w₂ | some n ↦ api.close n w₂ ] in
      (true, (elim found [ none ↦ memory | some ip ↦ ip ], w₃))

-- `InetAddrToString`, with `inet_ntoa` a parameter and the port in the order of the host.
unfoldable pub inet_addr_to_string : (ℕ → Bytes) → ℕ → ℕ → Bytes
inet_addr_to_string inet_ntoa ip port = inet_ntoa ip ++ codes ":" ++ to_decimal port

-- `time::mstime`, of the seconds and the microseconds that `gettimeofday` gives.
unfoldable pub mstime : ℕ → ℕ → ℕ
mstime sec usec = (sec * 1000 + usec / 1000) % 2 ^ 64
