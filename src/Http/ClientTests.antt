-- ===== src/Http/ClientTests.antt =====
-- Examples for the connections and clients, over a peer that answers every request with three bytes.
use tinyco.Prelude.{
  ℤ, is_neg, ℕ, ◌≤◌, ◌≡◌, refl, ap, true, false, Option, some, [], ◌∷◌, ◌++◌, arith, ◌==◌,
  if◌then◌else◌, length, take, take_all, pos, Bytes, codes,
}
use tinyco.Http.Url.{Url, empty_url, is_https, add_params, parse_url, port_of, uri_of}
use tinyco.Http.Request.{HttpRequest, http_request_new, serialize, serialize_to_string}
use tinyco.Http.Headers.{tail_of}
use tinyco.Http.Response.{HttpResponse, http_response_new, set_status}
use tinyco.Http.Parser.{ParserLib, parse_http_response, on_response, set_pairs}
use tinyco.Http.Check.{check_http, check_pkg, http_check_complete, as_int}
use tinyco.Http.Server.{got}
use tinyco.Http.Conn.{
  System, TcpConn, tcp_conn_new, init, init_socket, set_blocking, init_connect, close, send,
  send_all, to_send, ensure_open, send_and_receive, recv_until, deliver,
}
use tinyco.Http.Delivery.{SendsFront, send-log}
use tinyco.Http.Received.{LogsReceived}
use tinyco.Http.Op.{Net, http_op, http_request, read_answer, http_send_and_receive, fix_url}
use tinyco.Http.Outcome.{FromText, http_op-FromText}
use tinyco.Http.Client.{client_init, client_exchange, client_exchange_complete}
use tinyco.Http.Https.{SslSystem, HttpsClient, https_client_new, clear_log}
use tinyco.Http.Secure.{https_exchange}
use tinyco.Http.ConnExchange.{Gives, client_exchange-answered}
use tinyco.Http.TlsExchange.{Gives as TlsGives, TakesSome, https_exchange-answered}
use tinyco.Http.Tests.{toy}

-- A peer that takes all, and the text that it has taken.
abbrev pub peer : System Bytes
peer = record {
  socket = λ w. (some 7, w);
  get_flags = λ n w. (some 2, w);
  set_flags = λ n flags w. (true, w);
  connect = λ n ip port w. (pos 0, w);
  send = λ n bytes w. (pos (length bytes), w ++ bytes);
  recv = λ n most w. (got (codes "abc"), w);
  close = λ n w. w;
  error = λ w. [];
}

abbrev pub open_conn : TcpConn
open_conn = record {
  ip = 1;
  port = 80;
  fd = some 7;
  connect_timeout = pos 200;
  read_timeout = pos 200;
  write_timeout = pos 200;
  strlog = [];
}

peer-SendsFront : SendsFront peer (λ w. w)
peer-SendsFront n k bytes w w' e =
    let size : k ≡ length bytes = ground arith in
    let taken : w' ≡ w ++ bytes = ground arith in
    rw (taken, size, take_all (length bytes) bytes (omega arith))

send-log_example : codes "hi" ≡ [] ++ codes "hi"
unfolding send ensure_open send_all to_send as_int
send-log_example =
    send-log peer (λ w. w) 7 (codes "hi") open_conn [] (open_conn, codes "hi") peer-SendsFront refl
      (omega arith) refl

-- A parser for which a message is whole at three bytes exactly.
abbrev pub exact : ParserLib
exact = record toy { execute_check = λ s. if length s == 3 then (3, true) else (0, false) }

exact_within : (t : Bytes) → (exact.execute_check t).0 ≤ length t
exact_within t = ground arith

-- A peer that replies with three bytes, and keeps what it took and what it gave.
abbrev two_logs : System (Bytes × Bytes)
two_logs = record {
  socket = λ w. (some 7, w);
  get_flags = λ n w. (some 2, w);
  set_flags = λ n flags w. (true, w);
  connect = λ n ip port w. (pos 0, w);
  send = λ n bytes w. (pos (length bytes), (w.0 ++ bytes, w.1));
  recv = λ n most w. (got (codes "abc"), (w.0, w.1 ++ codes "abc"));
  close = λ n w. w;
  error = λ w. [];
}

abc_of : (bs : Bytes) → got (codes "abc") ≡ got bs → codes "abc" ≡ bs
abc_of bs e = ground arith

two_logs-LogsReceived : LogsReceived two_logs (λ w. w.1) 7
two_logs-LogsReceived = record {
  by_send = λ bytes w. refl;
  by_recv = λ most bs w e. ap (λ t. w.1 ++ t) (abc_of bs e);
}

client_exchange_complete_example :
    (codes "abc" ≡ [] ++ codes "abc") × (true ≡ true) × (check_pkg exact (codes "abc") ≡ pos 3)
unfolding client_exchange send_and_receive ensure_open send_all to_send as_int recv_until deliver
    http_check_complete check_http
client_exchange_complete_example =
    client_exchange_complete two_logs exact 1 (λ w. w.1) 7 (codes "hi") (codes "abc") open_conn
      ([], []) (open_conn, (codes "hi", codes "abc")) two_logs-LogsReceived refl (omega arith)
      exact_within refl

-- The same peer behind TLS.
abbrev pub tls_peer : SslSystem Bytes
tls_peer = record {
  socket = λ w. (some 7, w);
  set_nonblock = λ n w. (true, w);
  set_keepalive = λ n w. (true, w);
  set_keepidle = λ n w. (true, w);
  set_keepintvl = λ n w. (true, w);
  set_keepcnt = λ n w. (true, w);
  shutdown_both = λ n w. w;
  close = λ n w. w;
  bio_new = λ w. (true, w);
  ctx_new = λ w. (true, w);
  connect = λ n ip port w. (pos 0, w);
  ssl_new = λ w. (true, w);
  ssl_connect = λ w. (pos 1, w);
  ssl_write = λ n bytes w. (pos (length bytes), w ++ bytes);
  ssl_read = λ most w. (got (codes "abc"), w);
  ssl_shutdown = λ w. w;
  ssl_free = λ w. w;
  bio_free = λ w. w;
  ssl_get_error = λ w. pos 0;
  errno = λ w. pos 0;
  strerror = λ w. [];
  inet_ntoa = λ ip. codes "1.0.0.0";
}

abbrev ready : HttpsClient
ready = record (https_client_new true) { https_fd = pos 7; bio = true; ssl = true }

-- A peer that takes one byte of the request at a time, and answers with one byte at a time.
abbrev slow_peer : SslSystem Bytes
slow_peer = record tls_peer {
  ssl_write = λ n bytes w. (pos 1, w ++ take 1 bytes);
  ssl_read = λ most w. (got (codes "a"), w);
}

-- A parser that takes all, and for which a message is whole at three bytes.
abbrev patient : ParserLib
patient = record toy { execute_check = λ s. (length s, length s == 3) }

slow_peer-TakesSome : TakesSome slow_peer (λ w. w)
slow_peer-TakesSome bytes w h = (0, w ++ take 1 bytes, refl, h, refl)

https_exchange-answered_example :
    (w₁ : Bytes) × (w' : Bytes) × (w₁ ≡ [] ++ codes "hi")
    × TlsGives slow_peer w₁ (codes "a" ∷ codes "a" ∷ codes "a" ∷ []) w'
    × (https_exchange slow_peer patient 3 ready (some (codes "hi")) true []
        ≡ some (pos 0, some (codes "aaa"), (clear_log ready, w')))
https_exchange-answered_example =
    https_exchange-answered slow_peer patient (λ w. w) 3 ready (codes "hi")
      (codes "a" ∷ codes "a" ∷ codes "a" ∷ []) [] refl refl refl (omega arith) (omega arith)
      slow_peer-TakesSome (λ w h. (w, (w, refl, (w, refl, (w, refl, refl)))))
      (unfold check_http in (refl, (refl, refl))) (omega arith)

-- The same without TLS.
abbrev slow_conn_peer : System Bytes
slow_conn_peer = record peer {
  send = λ n bytes w. (pos 1, w ++ take 1 bytes);
  recv = λ n most w. (got (codes "a"), w);
}

client_exchange-answered_example :
    (w₁ : Bytes) × (w' : Bytes) × (w₁ ≡ [] ++ codes "hi")
    × Gives slow_conn_peer 7 w₁ (codes "a" ∷ codes "a" ∷ codes "a" ∷ []) w'
    × (client_exchange slow_conn_peer patient 3 (some (codes "hi")) true (open_conn, [])
        ≡ some (pos 0, some (codes "aaa"), (open_conn, w')))
client_exchange-answered_example =
    client_exchange-answered slow_conn_peer 7 patient (λ w. w) 3 open_conn (codes "hi")
      (codes "a" ∷ codes "a" ∷ codes "a" ∷ []) [] refl (omega arith) (omega arith)
      (λ bytes w h. (0, w ++ take 1 bytes, refl, h, refl))
      (λ w h. (w, (w, refl, (w, refl, (w, refl, refl)))))
      (unfold check_http in (refl, (refl, refl))) (omega arith) (omega arith) (omega arith)

-- A request over the peer, for a name that is found.
abbrev found : Bytes → Bytes → Option ℕ × Bytes
found name w = (some 1, w)

abbrev pub outside : Net Bytes
outside = record { ctx = true; net = [] }

abbrev no_request : Url → HttpRequest
no_request u = record http_request_new { method = 0 }

abbrev answered : HttpResponse
answered = set_status 200 http_response_new

op_run :
    http_op exact peer tls_peer 1 found open_conn no_request (codes "/ab") http_response_new outside
    ≡ some
        (pos 0, answered, record { ctx = true; net = serialize_to_string (no_request empty_url) })
unfolding http_op parse_url port_of uri_of is_https http_request read_answer http_send_and_receive
    client_init init init_socket set_blocking init_connect close client_exchange send_and_receive
    ensure_open send_all to_send as_int recv_until deliver http_check_complete check_http
    parse_http_response on_response set_pairs set_status http_response_new tcp_conn_new
    serialize_to_string serialize fix_url add_params http_request_new tail_of
op_run = refl

http_op-FromText_example :
    (code : ℤ) × (u : Url) × (parse_url exact.find_url exact.unescape
        (fix_url (codes "/ab"))
        empty_url
      ≡ some (code, u))
    × (is_neg code ≡ false)
    × FromText exact peer tls_peer 1
        (is_https u)
        (serialize_to_string (no_request u))
        http_response_new
        answered
http_op-FromText_example =
    http_op-FromText exact peer tls_peer 1 found open_conn no_request (codes "/ab")
      http_response_new answered outside
      (record { ctx = true; net = serialize_to_string (no_request empty_url) }) op_run
