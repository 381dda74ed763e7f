-- ===== src/Frame/State.antt =====
-- The state of `Frame` and `Thread`, and the operations that do not touch the timers. A `Thread *` is
-- a number, the objects live in `threads`, and `fresh` is the next address of `new Thread`. `cpu` says
-- whose context runs: a coroutine's, or, if `none`, that of `MainThreadLoop`. A context saved by
-- `Thread::Schedule` goes on behind the call of `Frame::Schedule` that follows it.
use tinyco.Prelude.{
  ℕ, zero, suc, ◌+◌, ◌*◌, ◌≡◌, Bool, true, false, ◌||◌, Option, none, some, List, [], ◌∷◌, ◌++◌,
  arith, ltb, ◌==◌, if◌then◌else◌,
}
use tinyco.Frame.Heap.{Sleeper}
use tinyco.Frame.Waits.{find_fd, put_fd, erase_fd}

pub data ThreadState : Type 0 where
  stop runnable pending dead : ThreadState

-- `BeginFrom`: what a new context runs.
pub data Entry : Type 0 where
  main_thread_loop : Entry
  handle_process : ℕ → Entry

pub record Stack : Type 0 where
  pub size : ℕ

pub record Thread : Type 0 where
  pub stack : Stack
  pub state : ThreadState
  pub fun : Option Entry
  pub wakeup_ts : ℕ

abbrev pub max_stack_size : ℕ
max_stack_size = 128 * 1024

-- `Stack()`, `Stack(size)` and `Stack::Init`.
unfoldable pub stack_new : Stack
stack_new = record { size = 0 }

unfoldable pub stack_of_size : ℕ → Stack
stack_of_size size = record { size = if ltb max_stack_size size then max_stack_size else size }

unfoldable pub stack_init : ℕ → Stack → Stack × Bool
stack_init size s = (record s { size = size }, true)

-- `new Thread`; its state is not set before `Init`.
unfoldable pub thread_new : Thread
unfolding stack_new
thread_new = record { stack = stack_new; state = stop; fun = none; wakeup_ts = 0 }

unfoldable pub thread_init : Thread → Thread × Bool
unfolding stack_init
thread_init t =
    let (s, ok) = stack_init max_stack_size t.stack in
    if ok then (record t { stack = s; state = stop }, true) else (record t { stack = s }, false)

unfoldable pub set_context : Entry → Thread → Thread
set_context e t = record t { fun = some e }

pub record Frame : Type 0 where
  pub threads : ℕ → Thread
  pub io_wait_map : List (ℕ × ℕ)
  pub thread_runnable : List ℕ
  pub thread_free : List ℕ
  pub thread_pending : List Sleeper
  pub main_thread : Option ℕ
  pub running_thread : Option ℕ
  pub base : Bool  -- whether `base_` is set
  pub last_loop_ts : ℕ
  pub fresh : ℕ
  pub cpu : Option ℕ

abbrev pub write : (ℕ → Thread) → ℕ → Thread → ℕ → Thread
write f i t j = if i == j then t else f j

-- `t->SetState(…)`.
abbrev pub set_state : ℕ → ThreadState → Frame → Frame
set_state t s f = record f { threads = write f.threads t (record (f.threads t) { state = s }) }

-- Before `Frame::Init`; the program's own context runs.
unfoldable pub boot : Frame
unfolding thread_new
boot = record {
  threads = λ t. thread_new;
  io_wait_map = [];
  thread_runnable = [];
  thread_free = [];
  thread_pending = [];
  main_thread = none;
  running_thread = none;
  base = false;
  last_loop_ts = 0;
  fresh = 1;
  cpu = none;
}

-- The addresses of `n` new objects.
abbrev pub addresses : ℕ → ℕ → List ℕ
addresses a zero = []
addresses a (suc n) = a ∷ addresses (suc a) n

abbrev pub is_set : Option ℕ → Bool
is_set none = false
is_set (some t) = true

-- `Frame::Init`: a thread for the main loop, one for the caller, and `pool` = 1000 to spare.
unfoldable pub init : ℕ → Frame → Frame × Bool
unfolding thread_new thread_init set_context
init pool f = if is_set f.main_thread || f.base then (f, false) else (
  record f {
    threads =
        write (write f.threads f.fresh (set_context main_thread_loop (thread_init thread_new).0))
          (suc f.fresh) (thread_init thread_new).0;
    main_thread = some f.fresh;
    running_thread = some (suc f.fresh);
    thread_free = f.thread_free ++ addresses (suc (suc f.fresh)) pool;
    fresh = suc (suc f.fresh) + pool;
    cpu = some (suc f.fresh);
    base = false;
  },
  true,
)

abbrev pub spare_threads : ℕ
spare_threads = 1000

-- `Frame::Fini` deletes the threads and the event base, and clears two of the pointers to them.
unfoldable pub fini : Frame → Frame × Bool
fini f = (record f { running_thread = none; main_thread = none }, true)

-- `GetEventBase` makes the base when it is first wanted.
abbrev pub get_event_base : Frame → Frame
get_event_base f = record f { base = true }

-- The back of a list, and what stands before it.
unfoldable pub pop_back : List ℕ → Option (List ℕ × ℕ)
pop_back [] = none
pop_back (x ∷ xs) = elim (pop_back xs) [ none ↦ some ([], x) | some (ys, y) ↦ some (x ∷ ys, y) ]

-- `AllocNewThread`: a thread of the pool, or a new one.
unfoldable pub alloc_new_thread : Frame → Frame × ℕ
unfolding thread_new
alloc_new_thread f = elim (pop_back f.thread_free) [
  | none ↦ (record f { threads = write f.threads f.fresh thread_new; fresh = suc f.fresh }, f.fresh)
  | some (rest, t) ↦ (set_state t stop (record f { thread_free = rest }), t)
]

-- `CreateThread`: the thread is queued behind the runnable ones, and its creator goes on.
unfoldable pub create_thread : ℕ → Frame → Frame × ℕ
unfolding alloc_new_thread thread_init set_context
create_thread work f =
    let (g, t) = alloc_new_thread f in
    (
      record g {
        threads =
            write g.threads t (set_context (handle_process work) (thread_init (g.threads t)).0);
        thread_runnable = g.thread_runnable ++ t ∷ [];
      },
      t,
    )

-- `Schedule`: the first runnable thread goes on, or the main loop if there is none.
unfoldable pub schedule : Frame → Frame
schedule f = elim f.thread_runnable [
  | [] ↦ record f { cpu = none }
  | t ∷ rest ↦ record f { running_thread = some t; thread_runnable = rest; cpu = some t }
]

-- `io_wait_map_[sockfd] = running_thread_` and `SetState(TS_STOP)`.
unfoldable pub park : ℕ → ℕ → Frame → Frame
park fd t f =
    set_state t stop (record (get_event_base f) { io_wait_map = put_fd fd t f.io_wait_map })

-- The lines by which `accept`, `connect`, `send`, `recv` and `recvfrom` wait for a descriptor. `none`
-- is the dereference of a null `running_thread_`.
unfoldable pub wait_io : ℕ → Frame → Option Frame
wait_io fd f = elim f.running_thread [ none ↦ none | some t ↦ some (schedule (park fd t f)) ]

-- `SocketReadOrWrite`, libevent's callback. For a descriptor that nobody waits for it would queue a
-- null thread: `none`.
unfoldable pub socket_read_or_write : ℕ → Frame → Option Frame
socket_read_or_write fd f = elim (find_fd fd f.io_wait_map) [
  | none ↦ none
  | some t ↦ some (record f {
    thread_runnable = f.thread_runnable ++ t ∷ [];
    io_wait_map = erase_fd fd f.io_wait_map;
  })
]

-- `RecycleRunningThread`.
unfoldable pub recycle_running_thread : Frame → Option Frame
recycle_running_thread f = elim f.running_thread [
  | none ↦ none
  | some t ↦
      some (record (set_state t dead f) {
        thread_free = f.thread_free ++ t ∷ [];
        running_thread = none;
      })
]

-- The end of `HandleProcess`, behind `w->Run()`.
unfoldable pub handle_process_end : Frame → Option Frame
unfolding recycle_running_thread
handle_process_end f = elim (recycle_running_thread f) [ none ↦ none | some g ↦ some (schedule g) ]

-- `InitHereAsNewThread`: the running context gets a thread object of its own.
unfoldable pub init_here_as_new_thread : Frame → Frame
unfolding thread_init thread_new
init_here_as_new_thread f = record f {
  threads = write f.threads f.fresh (thread_init thread_new).0;
  running_thread = some f.fresh;
  fresh = suc f.fresh;
  cpu = some f.fresh;
}

-- `UpdateLoopTimestamp`.
unfoldable pub update_loop_timestamp : ℕ → Frame → Frame
update_loop_timestamp now f = record f { last_loop_ts = now }

-- `Fini` leaves `base_` pointing at the freed event base, so a framework that has waited for I/O once
-- cannot be initialised again.
pub init-fini : (pool : ℕ) (f : Frame) → f.base ≡ true → init pool (fini f).0 ≡ ((fini f).0, false)
unfolding init fini
init-fini pool f h = ground arith
