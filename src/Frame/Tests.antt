-- ===== src/Frame/Tests.antt =====
-- Runs of the scheduler over sorted timers, and the theorems at states of such runs.
use tinyco.Prelude.{◌+◌, ◌-◌, ◌≤◌, ◌≡◌, refl, none, some, List, [], ◌∷◌, map, arith, length}
use tinyco.Frame.Heap.{Sleeper, wakes_after}
use tinyco.Frame.Waits.{find_fd, put_fd}
use tinyco.Frame.State.{
  Frame, boot, init, schedule, park, create_thread, wait_io, pop_back, update_loop_timestamp,
}
use tinyco.Frame.Pending.{sleep, bed_down, wakeup_pending_thread}
use tinyco.Frame.Timeout.{IsMilliseconds, get_event_loop_timeout, timeout-IsMilliseconds}
use tinyco.Frame.Wakeup.{Woken, wakeup_pending_thread-Woken}
use tinyco.Frame.Steps.{Reach, started, stepped, sleeps, creates, updates, waits, schedules}
use tinyco.Frame.Sleepers.{sleeper_runs}
use tinyco.Frame.Turns.{Run, over, goes_on, turns, Served, runs_in_turn}
use tinyco.Frame.Ownership.{places}
use tinyco.Frame.Invariant.{one_place, no_thread_lost}
use tinyco.Frame.Dropped.{dropped-never}
use tinyco.Frame.SortedTimers.{sorted_timers, push_last, rotate}

-- Thread 2 called `Frame::Init`; it creates a coroutine, which takes thread 4 of the pool.
abbrev begun : Frame
begun = (init 2 boot).0

abbrev with_work : Frame
with_work = (create_thread 7 begun).0

-- Thread 2 sleeps, and thread 4 runs and sleeps less.
abbrev both_asleep : Frame
both_asleep = sleep sorted_timers 1000 20 (sleep sorted_timers 1000 50 with_work)

both_asleep_threads :
    (map (λ s. s.thread) both_asleep.thread_pending ≡ 4 ∷ 2 ∷ []) × (both_asleep.cpu ≡ none)
unfolding init boot create_thread pop_back sleep bed_down schedule wakes_after push_last
both_asleep_threads = (refl, refl)

-- The main loop at 1030: thread 4 is woken, and thread 2 is left.
abbrev at_1030 : Frame
at_1030 = wakeup_pending_thread sorted_timers (record both_asleep { last_loop_ts = 1030 })

at_1030_threads :
    (at_1030.thread_runnable ≡ 4 ∷ []) × (map (λ s. s.thread) at_1030.thread_pending ≡ 2 ∷ [])
unfolding init boot create_thread pop_back sleep bed_down schedule wakes_after push_last rotate
    wakeup_pending_thread
at_1030_threads = (refl, refl)

abbrev sleeper : Sleeper
sleeper = record { thread = 3; wakeup = 1250 }

abbrev one_asleep : Frame
one_asleep = record begun { thread_pending = sleeper ∷ []; last_loop_ts = 1000 }

timeout-IsMilliseconds_example : IsMilliseconds (get_event_loop_timeout one_asleep) (1250 - 1000)
timeout-IsMilliseconds_example = timeout-IsMilliseconds one_asleep sleeper [] refl (omega arith)

-- `Sleep(3000000000)`.
abbrev long_sleeper : Sleeper
long_sleeper = record { thread = 3; wakeup = 1000 + 3_000_000_000 }

abbrev long_asleep : Frame
long_asleep = record begun { thread_pending = long_sleeper ∷ []; last_loop_ts = 1000 }

wakeup_pending_thread-Woken_example :
    (ws : List Sleeper) × Woken sorted_timers one_asleep
      (wakeup_pending_thread sorted_timers one_asleep)
      ws
wakeup_pending_thread-Woken_example = wakeup_pending_thread-Woken sorted_timers one_asleep (tt, tt)

begun_cpu : begun.cpu ≡ some 2
unfolding init boot
begun_cpu = refl

one_place_example : places 4 (sleep sorted_timers 1000 50 begun) ≤ 1
one_place_example = one_place sorted_timers (stepped (started 2) (sleeps 2 1000 50 begun_cpu)) 4

no_thread_lost_example : places 2 (sleep sorted_timers 1000 50 begun) ≡ 1
no_thread_lost_example =
    no_thread_lost sorted_timers {f = begun} (started 2) (sleeps 2 1000 50 begun_cpu) 2
      (unfold init boot in refl)

-- Thread 2 has created the coroutines 4 and 3, in this order; thread 2 sleeps, and then thread 4 does.
abbrev two_created : Frame
two_created = (create_thread 8 with_work).0

with_work_cpu : with_work.cpu ≡ some 2
unfolding init boot create_thread pop_back
with_work_cpu = refl

two_created_cpu : two_created.cpu ≡ some 2
unfolding init boot create_thread pop_back
two_created_cpu = refl

two_created_queue : two_created.thread_runnable ≡ 4 ∷ 3 ∷ []
unfolding init boot create_thread pop_back
two_created_queue = refl

first_asleep_cpu : (sleep sorted_timers 1000 50 two_created).cpu ≡ some 4
unfolding init boot create_thread pop_back sleep bed_down schedule wakes_after push_last
first_asleep_cpu = refl

abbrev two_turns : Run sorted_timers two_created
two_turns =
    goes_on (sleeps 2 1000 50 two_created_cpu) (goes_on (sleeps 4 1010 20 first_asleep_cpu) over)

runs_in_turn_example : Served sorted_timers 3 two_turns
runs_in_turn_example =
    runs_in_turn sorted_timers two_turns 3 (4 ∷ []) []
      (stepped (stepped (started 2) (creates 2 7 begun_cpu)) (creates 2 8 with_work_cpu))
      two_created_queue (unfold turns in omega arith)

-- The main loop goes on at 1030, when the time of thread 4 has come and that of thread 2 has not.
abbrev at_work : Frame
at_work = sleep sorted_timers 1000 50 with_work

abbrev late_loop : Frame
late_loop = update_loop_timestamp 1030 both_asleep

at_work_cpu : at_work.cpu ≡ some 4
unfolding init boot create_thread pop_back sleep bed_down schedule wakes_after push_last
at_work_cpu = refl

late_loop-Reach : Reach sorted_timers late_loop
late_loop-Reach =
    stepped
      (stepped
        (stepped (stepped (started 2) (creates 2 7 begun_cpu)) (sleeps 2 1000 50 with_work_cpu))
        (sleeps 4 1000 20 at_work_cpu))
      (updates 1030 both_asleep_threads.1)

abbrev woken_loop : Frame
woken_loop = wakeup_pending_thread sorted_timers late_loop

woken_loop_cpu : (woken_loop.cpu ≡ none) × ((schedule woken_loop).cpu ≡ some 4)
unfolding init boot create_thread pop_back sleep bed_down schedule wakes_after push_last rotate
    wakeup_pending_thread update_loop_timestamp
woken_loop_cpu = (refl, refl)

abbrev after_waking : Run sorted_timers woken_loop
after_waking =
    goes_on (schedules woken_loop_cpu.0) (goes_on (sleeps 4 1031 9 woken_loop_cpu.1) over)

late_loop_sleepers :
    (late_loop.cpu ≡ none)
    × (late_loop.thread_pending
        ≡ record { thread = 4; wakeup = 1020 } ∷ record { thread = 2; wakeup = 1050 } ∷ [])
    × (length late_loop.thread_runnable + length late_loop.thread_pending ≡ 2)
    × (late_loop.last_loop_ts ≡ 1030)
unfolding init boot create_thread pop_back sleep bed_down schedule wakes_after push_last
    update_loop_timestamp
late_loop_sleepers = (refl, refl, refl, refl)

turns-after_waking : turns sorted_timers after_waking ≡ 2
unfolding turns
turns-after_waking = refl

sleeper_runs_example : Served sorted_timers 4 after_waking
sleeper_runs_example =
    sleeper_runs sorted_timers (record { thread = 4; wakeup = 1020 }) []
      (record { thread = 2; wakeup = 1050 } ∷ []) after_waking late_loop-Reach late_loop_sleepers.0
      late_loop_sleepers.1 (rw late_loop_sleepers.3 (omega arith))
      (omega (arith, late_loop_sleepers.2, turns-after_waking))

-- Thread 2 creates thread 4 and waits for descriptor 9; thread 4 comes to wait for it too.
abbrev first_waits : Frame
first_waits = schedule (park 9 2 with_work)

abbrev both_wait : Frame
both_wait = schedule (park 9 4 first_waits)

first_waits_steps :
    (find_fd 9 with_work.io_wait_map ≡ none) × (wait_io 9 with_work ≡ some first_waits)
unfolding init boot create_thread pop_back wait_io find_fd
first_waits_steps = (refl, refl)

both_wait_steps :
    (first_waits.cpu ≡ some 4)
    × (find_fd 9 first_waits.io_wait_map ≡ some 2)
    × (places 2 first_waits ≡ 1)
    × (wait_io 9 first_waits ≡ some both_wait)
    × (both_wait.cpu ≡ none)
unfolding init boot create_thread pop_back wait_io schedule park find_fd put_fd
both_wait_steps = (refl, refl, refl, refl, refl)

first_waits-Reach : Reach sorted_timers first_waits
first_waits-Reach =
    stepped (stepped (started 2) (creates 2 7 begun_cpu))
      (waits 2 9 first_waits with_work_cpu first_waits_steps.0 first_waits_steps.1)

-- The main loop reads the clock and runs who is runnable, if anybody is.
abbrev after_both_wait : Run sorted_timers both_wait
after_both_wait = goes_on (updates 1030 both_wait_steps.4) over

dropped-never_example : ¬ Served sorted_timers 2 after_both_wait
dropped-never_example =
    dropped-never sorted_timers {f = first_waits} 4 2 9 after_both_wait first_waits-Reach
      both_wait_steps.0 both_wait_steps.1 (omega arith) both_wait_steps.2 both_wait_steps.3
