-- ===== src/Server/Tests.antt =====
-- Examples for the master and the services.
use tinyco.Prelude.{
  ℕ, ◌≡◌, refl, true, false, Option, none, some, [], arith, if◌then◌else◌, Bytes, codes, eqb,
}
use tinyco.Text.Split.{split}
use tinyco.Text.Trim.{trim, ltrim, isspace}
use tinyco.Server.Loops.{
  TcpLoop, UdpLoop, gives_work, slept, goes_on, stopped, held_by, lock_of, tcp_round, udp_round,
  tcp_round-lock, udp_round-stuck,
}
use tinyco.Server.Services.{
  MethodDescriptor, AllServed, add_rpc_service, add_rpc_service-Served, add_methods, add_method,
}

-- A service, given by the number of its methods' names, with one method.
abbrev find_add : ℕ → Bytes → Option Bytes
find_add s name = if eqb name (codes "add") then some (codes "Sum.add") else none

abbrev added : MethodDescriptor ℕ
added = record { service = 1; method = codes "add"; full_name = codes "Sum.add" }

nothing-AllServed : AllServed find_add []
nothing-AllServed path d e = absurd (ground arith)

add_rpc_service-Served_example : find_add 1 (codes "add") ≡ some (codes "Sum.add")
unfolding add_rpc_service add_methods add_method split trim ltrim isspace
add_rpc_service-Served_example =
    add_rpc_service-Served find_add 1 (codes "/a > add") (codes "/a") [] added nothing-AllServed
      refl

tcp_round-lock_example :
    let s : TcpLoop = record {
      accepted = 3;
      mtx = held_by 0;
      tracker = some (record { conns = []; graceful_shutdown = false });
      threads = [];
    } in
    (lock_of (tcp_round 41 true gives_work (some 8) s) ≡ some (held_by 0))
    × (tcp_round 41 true gives_work none s ≡ stopped (record s { accepted = 4; mtx = held_by 41 }))
tcp_round-lock_example =
    tcp_round-lock 41 3 8 true gives_work (record { conns = []; graceful_shutdown = false }) [] tt
      (omega arith)

udp_round-stuck_example :
    let s : UdpLoop = record { udp_mtx = held_by 41; packages = [] } in
    (udp_round 41 gives_work (some []) (record { udp_mtx = held_by 0; packages = [] }) ≡ goes_on s)
    × (udp_round 41 gives_work (some (codes "x")) s ≡ slept 500 s)
udp_round-stuck_example =
    udp_round-stuck 41 gives_work gives_work (some (codes "x")) [] (omega arith)
