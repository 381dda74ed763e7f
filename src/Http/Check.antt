-- ===== src/Http/Check.antt =====
-- `CheckHttp` of http/http_tool.cc, whether a buffer holds a whole message, and its callers' readings of
-- the code: `HttpCheckPkg` of http/http_server.cc and `HttpCheckComplete` of http/http_client.cc.
use tinyco.Prelude.{
  ℕ, ◌+◌, ◌-◌, ◌%◌, ◌^◌, ◌≤◌, ◌<◌, ◌≡◌, refl, ◌⊎◌, inl, inr, Bool, true, false, not, ◌&&◌, Option,
  none, some, arith, ltb, leb, ◌==◌, if◌then◌else◌, Bool-cases, length, take, take_all, ℤ, pos,
  negsuc, neg, Bytes,
}
use tinyco.Http.Parser.{ParserLib}

abbrev pub hpc_ok : ℤ
hpc_ok = pos 0

abbrev pub hpc_not_http : ℤ
hpc_not_http = neg 1

abbrev pub hpc_not_complete_http : ℤ
hpc_not_complete_http = neg 2

-- The enumerator after -2 is -1.
abbrev pub hpc_unknown : ℤ
hpc_unknown = neg 1

-- `static_cast<uint32_t>(nparsed)` of the `int nparsed`.
abbrev low_word : ℕ → ℕ
low_word n = n % 2 ^ 32

-- An `int`, of which the low word is given, as a `size_t`.
abbrev as_size : ℕ → ℕ
as_size w = if ltb w (2 ^ 31) then w else w + (2 ^ 64 - 2 ^ 32)

-- The low word of a size_t as an `int`.
unfoldable pub as_int : ℕ → ℤ
as_int n = let w = n % 2 ^ 32 in if ltb w (2 ^ 31) then pos w else neg (2 ^ 32 - w)

abbrev pub eq_int : ℤ → ℤ → Bool
eq_int (pos m) (pos n) = m == n
eq_int (pos m) (negsuc n) = false
eq_int (negsuc m) (pos n) = false
eq_int (negsuc m) (negsuc n) = m == n

pub as_int_small : (n : ℕ) → n < 2 ^ 31 → as_int n ≡ pos n
unfolding as_int
as_int_small n h = let small : n % 2 ^ 32 ≡ n = omega arith in rw small (ground arith)

module _ (lib : ParserLib) where
  -- The code, and `*szparsed` where it is written.
  unfoldable pub check_http : Bytes → ℤ × Option ℕ
  check_http s =
      let (n, complete) = lib.execute_check s in
      let w = low_word n in
      if leb w (length s) && complete
      then (hpc_ok, some (as_size w))
      else if w == 0
      then (hpc_not_http, none)
      else if leb w (length s) && not complete
      then (hpc_not_complete_http, none)
      else (hpc_unknown, none)

  -- `HttpCheckPkg::CheckPkg`, with `real_len` 0 in the beginning: the result for that of `CheckHttp`.
  unfoldable pub pkg_code : ℤ × Option ℕ → ℤ
  pkg_code (ret, real_len) =
      if eq_int hpc_ok ret
      then elim real_len [ none ↦ pos 0 | some n ↦ as_int n ]
      else if eq_int hpc_not_complete_http ret
      then pos 0
      else neg 1

  -- The length of the buffer is passed as a `uint32_t`.
  unfoldable pub check_pkg : Bytes → ℤ
  unfolding check_http pkg_code
  check_pkg s = pkg_code (check_http (take (length s % 2 ^ 32) s))

  pub check_pkg-small : (s : Bytes) → length s < 2 ^ 32 → check_pkg s ≡ pkg_code (check_http s)
  unfolding check_pkg
  check_pkg-small s h =
      let small : length s % 2 ^ 32 ≡ length s = omega arith in
      rw (small, take_all (length s) s (omega arith)) refl

  -- `HttpClient::HttpCheckComplete`: CHECK_INCOMPLETE is -2 and CHECK_ERROR is -1.
  unfoldable pub http_check_complete : Bytes → ℤ
  http_check_complete s =
      let (ret, _) = check_http s in
      if eq_int ret hpc_ok
      then as_int (length s)
      else if eq_int ret hpc_not_http
      then pos 0
      else if eq_int ret hpc_not_complete_http
      then neg 2
      else neg 1

  check_whole :
      (s : Bytes) (n : ℕ)
      → lib.execute_check s ≡ (n, true)
      → n ≤ length s
      → length s < 2 ^ 31
      → check_http s ≡ (hpc_ok, some n)
  unfolding check_http
  check_whole s n e b h = let small : n % 2 ^ 32 ≡ n = omega arith in rw (e, small) (ground arith)

  check_part :
      (s : Bytes) (n : ℕ)
      → lib.execute_check s ≡ (n, false)
      → n ≤ length s
      → length s < 2 ^ 31
      → check_http s ≡ (if n == 0 then (hpc_not_http, none) else (hpc_not_complete_http, none))
  unfolding check_http
  check_part s n e b h = let small : n % 2 ^ 32 ≡ n = omega arith in rw (e, small) (ground arith)

  -- What the three callers make of a buffer below 2 GB of which http-parser takes no more than there is:
  -- a whole message gives its length to the server and the buffer's length to the client; where nothing
  -- at all is taken, both say that it is not HTTP; and every other buffer, one with an error behind its
  -- first byte included, counts as not complete.
  pub check_http-codes :
      (s : Bytes) (n : ℕ) (complete : Bool)
      → length s < 2 ^ 31
      → lib.execute_check s ≡ (n, complete)
      → n ≤ length s
      → ((complete ≡ true) × (check_pkg s ≡ pos n) × (http_check_complete s ≡ pos (length s)))
        ⊎ ((complete ≡ false) × (n ≡ 0) × (check_pkg s ≡ neg 1) × (http_check_complete s ≡ pos 0))
        ⊎ ((complete ≡ false) × (0 < n) × (check_pkg s ≡ pos 0) × (http_check_complete s ≡ neg 2))
  unfolding pkg_code http_check_complete
  check_http-codes s n true h e b =
      let small : as_int n ≡ pos n = as_int_small n (omega arith) in
      inl (
        refl,
        rw (check_pkg-small s (omega arith), check_whole s n e b h) small,
        rw (check_whole s n e b h) (as_int_small (length s) h),
      )
  check_http-codes s n false h e b = elim (Bool-cases (n == 0)) [
    | inl z ↦ inr (
        inl (
          refl,
          ground arith,
          rw (check_pkg-small s (omega arith), check_part s n e b h, z),
          rw (check_part s n e b h, z),
        ))
    | inr z ↦ inr (
        inr (
          refl,
          ground arith,
          rw (check_pkg-small s (omega arith), check_part s n e b h, z),
          rw (check_part s n e b h, z),
        ))
  ]

  -- A client takes a length only where http-parser says that the message is complete.
  pub http_check_complete-flag :
      (s : Bytes) (n : ℕ) → http_check_complete s ≡ pos n → 0 < n → (lib.execute_check s).1 ≡ true
  unfolding http_check_complete check_http
  http_check_complete-flag s n e p = elim (Bool-cases (lib.execute_check s).1) [
    | inl c ↦ c
    | inr c ↦ absurd (ground arith)
  ]
