-- ===== src/Http/Https.antt =====
-- `HttpsClient` of http/https_client.h and .cc, with the BIO that passes its bytes to the frame. OpenSSL,
-- the system and the frame are parameters over a state of the outside.
use tinyco.Prelude.{
  ℕ, zero, suc, Bool, true, false, not, ◌&&◌, Option, none, some, if◌then◌else◌, ℤ, pos, negsuc,
  neg, Bytes, codes, [], ◌++◌,
}
use tinyco.Http.Server.{Received}

-- The fields of a BIO that the methods use; `shutdown` and `num` are `int`s.
pub record Bio : Type 0 where
  pub init : ℤ
  pub num : ℤ
  pub shutdown : ℤ
  pub flags : ℤ
  pub has_ptr : Bool

-- The commands of `mt_ctrl`.
pub data BioCommand : Type 0 where
  set_fd : ℤ → BioCommand
  get_fd get_close set_close dup flush other : BioCommand

abbrev pub is_zero : ℤ → Bool
is_zero (pos zero) = true
is_zero (pos (suc n)) = false
is_zero (negsuc n) = false

-- `mt_new`.
unfoldable pub mt_new : Bio → ℤ × Bio
mt_new b = (pos 1, record b { init = pos 0; num = pos 0; has_ptr = false; flags = pos 0 })

-- `mt_read` and `mt_write`, over `Frame::recv` and `Frame::send`; a null buffer is `none`. The timeouts of
-- the BIO are passed on to neither.
unfoldable pub mt_read : {W : Type 0} → (ℕ → W → ℤ × W) → Option ℕ → W → ℤ × W
mt_read recv none w = (pos 0, w)
mt_read recv (some most) w = recv most w

unfoldable pub mt_write : {W : Type 0} → (Bytes → W → ℤ × W) → Option Bytes → W → ℤ × W
mt_write send none w = (pos 0, w)
mt_write send (some bytes) w = send bytes w

-- The calls that the client makes. `ssl_write` has the length as an `int`.
pub record SslSystem (W : Type 0) : Type 0 where
  pub socket : W → Option ℕ × W
  pub set_nonblock : ℕ → W → Bool × W
  pub set_keepalive : ℕ → W → Bool × W
  pub set_keepidle : ℕ → W → Bool × W
  pub set_keepintvl : ℕ → W → Bool × W
  pub set_keepcnt : ℕ → W → Bool × W
  pub shutdown_both : ℤ → W → W
  pub close : ℤ → W → W
  pub bio_new : W → Bool × W
  pub ctx_new : W → Bool × W
  pub connect : ℕ → ℕ → ℕ → W → ℤ × W
  pub ssl_new : W → Bool × W
  pub ssl_connect : W → ℤ × W
  pub ssl_write : ℤ → Bytes → W → ℤ × W
  pub ssl_read : ℕ → W → Received × W
  pub ssl_shutdown : W → W
  pub ssl_free : W → W
  pub bio_free : W → W
  -- What `SSL_get_error` says of the last call, `errno`, and `strerror` of it; and `inet_ntoa`.
  pub ssl_get_error : W → ℤ
  pub errno : W → ℤ
  pub strerror : W → Bytes
  pub inet_ntoa : ℕ → Bytes

-- The client: `fd` as it is stored, whether `ctx_`, `bio_` and `ssl_` are there, and its two logs.
pub record HttpsClient : Type 0 where
  pub https_fd : ℤ
  pub ctx : Bool
  pub bio : Bool
  pub ssl : Bool
  pub ms_connect_timeout : ℤ
  pub ms_read_timeout : ℤ
  pub ms_write_timeout : ℤ
  pub strlog : Bytes
  pub strerr : Bytes

abbrev pub https_client_new : Bool → HttpsClient
https_client_new ctx = record {
  https_fd = neg 1;
  ctx = ctx;
  bio = false;
  ssl = false;
  ms_connect_timeout = pos 1000;
  ms_read_timeout = pos 5000;
  ms_write_timeout = pos 500;
  strlog = [];
  strerr = [];
}

-- `strerr_.append`, `ClearLog` and `GetErrorMsg`.
abbrev pub erred : Bytes → HttpsClient → HttpsClient
erred text c = record c { strerr = c.strerr ++ text }

unfoldable pub clear_log : HttpsClient → HttpsClient
clear_log c = record c { strlog = []; strerr = [] }

unfoldable pub get_error_msg : HttpsClient → Bytes × HttpsClient
get_error_msg c = (c.strerr, record c { strerr = [] })

module _ {W : Type 0} (sys : SslSystem W) where
  -- What a call leaves behind: the client and the outside.
  abbrev pub Client : Type 0
  Client = HttpsClient × W

  -- `mt_free` on a BIO that is there.
  unfoldable pub mt_free : Bio → W → ℤ × Bio × W
  mt_free b w = if is_zero b.shutdown then (pos 1, b, w) else (
    pos 1,
    record b { init = pos 0; flags = pos 0 },
    (if is_zero b.init then w else sys.close b.num (sys.shutdown_both b.num w)),
  )

  -- `mt_ctrl`: the result, the BIO, and `*ip` where it is written.
  unfoldable pub mt_ctrl : BioCommand → ℤ → Bio → W → ℤ × Option ℤ × Bio × W
  unfolding mt_free
  mt_ctrl (set_fd fd) num b w =
      let (_, b₁, w₁) = mt_free b w in
      (pos 1, none, record b₁ { num = fd; shutdown = num; init = pos 1 }, w₁)
  mt_ctrl get_fd num b w = if is_zero b.init then (neg 1, none, b, w) else (b.num, some b.num, b, w)
  mt_ctrl get_close num b w = (b.shutdown, none, b, w)
  mt_ctrl set_close num b w = (pos 1, none, record b { shutdown = num }, w)
  mt_ctrl dup num b w = (pos 1, none, b, w)
  mt_ctrl flush num b w = (pos 1, none, b, w)
  mt_ctrl other num b w = (pos 0, none, b, w)

  -- An option of the socket in `CreateSocket`: on a failure the socket is closed, and the code is given.
  unfoldable pub set_option :
      ℕ → (ℕ → W → Bool × W) → ℤ → Bytes → (Client → ℤ × Client) → Client → ℤ × Client
  set_option fd option code text rest (c, w) =
      let (done, w₁) = option fd w in
      if done then rest (c, w₁) else (code, (erred text c, sys.close (pos fd) w₁))

  -- `CreateSocket`, which has made the socket: it is not closed if it cannot be made non-blocking.
  unfoldable pub configure : ℕ → Client → ℤ × Client
  unfolding set_option
  configure fd (c, w) =
      let (done, w₁) = sys.set_nonblock fd w in
      if done
      then set_option fd sys.set_keepalive (neg 4) (codes "setsockopt SO_KEEPALIVE error")
          (set_option fd sys.set_keepidle (neg 5) (codes "setsockopt TCP_KEEPIDLE error") (
            set_option fd sys.set_keepintvl (neg 6) (codes "setsockopt TCP_KEEPINTVL error") (
              set_option fd sys.set_keepcnt (neg 7) (codes "setsockopt TCP_KEEPCNT error")
                (λ s. (pos fd, s)))))
          (c, w₁)
      else (neg 2, (erred (codes "fail to set nonblock") c, w₁))

  unfoldable pub create_socket : Client → ℤ × Client
  unfolding configure
  create_socket (c, w) =
      let (made, w₁) = sys.socket w in
      elim made [
        | none ↦ (neg 1, (erred (codes "socket error") (record c { https_fd = neg 1 }), w₁))
        | some fd ↦ configure fd (record c { https_fd = pos fd }, w₁)
      ]

  -- `Close`: the BIO belongs to the SSL connection, if there is one.
  unfoldable pub https_close : HttpsClient → W → HttpsClient × W
  https_close c w =
      let w₁ = if c.ssl then sys.ssl_free (sys.ssl_shutdown w) else w in
      let w₂ = if c.bio && not c.ssl then sys.bio_free w₁ else w₁ in
      let w₃ = if is_minus_one c.https_fd then w₂ else sys.close c.https_fd w₂ in
      (record c { https_fd = neg 1; ssl = false; bio = false }, w₃)
    where
      is_minus_one : ℤ → Bool
      is_minus_one (pos n) = false
      is_minus_one (negsuc zero) = true
      is_minus_one (negsuc (suc n)) = false
