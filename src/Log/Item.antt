-- ===== src/Log/Item.antt =====
-- What a line of the log says: the levels, the header and the text, log.h and `CommonLog` and
-- `AppendLogItemHeader` of log.cc. `strftime` of the local time and `vsnprintf` are parameters.
use tinyco.Prelude.{
  ℕ, ◌-◌, ◌/◌, ◌%◌, Bool, true, not, ◌++◌, ltb, take, ℤ, pos, negsuc, Bytes, codes,
}
use tinyco.Http.Decimal.{to_decimal}

pub data LogLevel : Type 0 where
  ll_debug ll_info ll_warning ll_error : LogLevel

abbrev pub level_code : LogLevel → ℕ
level_code ll_debug = 0
level_code ll_info = 1
level_code ll_warning = 2
level_code ll_error = 3

-- The test of `Debug`, `Info`, `Warning` and `Error` on `loglevel_`, an int: whether they go on.
unfoldable pub enabled : ℤ → LogLevel → Bool
enabled loglevel l = elim loglevel [ pos n ↦ not (ltb (level_code l) n) | negsuc n ↦ true ]

abbrev pub k_log_item_size : ℕ
k_log_item_size = 2048

module _ (strftime : ℕ → Bytes) where
  -- `AppendLogItemHeader` at a time in milliseconds.
  unfoldable pub append_log_item_header : ℕ → ℕ → ℕ → Bytes → Bytes
  append_log_item_header now uin line func =
      strftime (now / 1000)
      ++ codes "."
      ++ to_decimal (now % 1000)
      ++ codes "]"
      ++ codes "["
      ++ func
      ++ codes "]"
      ++ codes "["
      ++ to_decimal line
      ++ codes "]"
      ++ codes "["
      ++ to_decimal uin
      ++ codes "] "

  -- `content_` as `CommonLog` builds it from the text that the format makes.
  unfoldable pub item : ℕ → ℕ → ℕ → Bytes → Bytes → Bytes
  unfolding append_log_item_header
  item now uin line func text =
      append_log_item_header now uin line func ++ take (k_log_item_size - 1) text
