-- ===== src/Log/Tests.antt =====
-- Examples for the log.
use tinyco.Prelude.{◌≡◌, refl, true, none, some, [], ◌∷◌, arith, pos, codes}
use tinyco.Http.Decimal.{to_decimal}
use tinyco.Log.Item.{ll_info, item, enabled, append_log_item_header}
use tinyco.Log.Local.{LocalLog, Logging, Outside, initialize, write_log, write_stream, log_at}
use tinyco.Log.History.{log_lines}
use tinyco.Log.Refinement.{Implements}
use tinyco.Log.Master.{
  write_logs, write_logs-Implements, initialize-Implements, empty_logs, empty_disk,
}

abbrev unset : LocalLog
unset = record {
  filepath = [];
  current_file = [];
  file = none;
  loglevel = pos 0;
  content = [];
  lasts = none;
}

abbrev started : Logging
started = record { log = unset; disk = empty_disk; err = [] }

abbrev master : Outside
master = record { ppid = 1; opens = true; first = 0; nows = 0 }

-- Without `Initialize` a line goes to stderr.
unset_log : (write_log master started).disk ≡ empty_disk
unfolding write_log write_stream
unset_log = refl

item_of_text :
    item (λ s. codes "[t") 1234567 1 20 (codes "Run") (codes "hi") ≡ codes "[t.567][Run][20][1] hi"
unfolding item append_log_item_header to_decimal
item_of_text = refl

info_hidden :
    log_at
      (λ s. codes "[t")
      master
      0
      ll_info
      1
      2
      (codes "f")
      (codes "x")
      (record started { log = record unset { loglevel = pos 2 } })
    ≡ record started { log = record unset { loglevel = pos 2 } }
unfolding log_at enabled
info_hidden = refl

write_logs-Implements_example :
    Implements (codes "tinyco") (log_lines (codes "one" ∷ codes "two" ∷ []) empty_logs) (
      write_logs master
        (codes "one" ∷ codes "two" ∷ [])
        (initialize true (some (codes "tinyco")) started).0)
write_logs-Implements_example =
    write_logs-Implements (codes "tinyco") master (codes "one" ∷ codes "two" ∷ []) empty_logs
      (initialize true (some (codes "tinyco")) started).0
      (initialize-Implements (codes "tinyco") unset []) refl refl (omega arith, (omega arith, tt))
