-- ===== src/Frame/Steps.antt =====
-- What coroutines and the main loop do to the scheduler, as a step relation. A coroutine's step needs
-- that it runs, the main loop's that none does.
use tinyco.Prelude.{ℕ, ◌≡◌, none, some}
use tinyco.Frame.Heap.{TimerHeap}
use tinyco.Frame.Waits.{find_fd}
use tinyco.Frame.State.{
  Frame, boot, init, create_thread, schedule, wait_io, socket_read_or_write, handle_process_end,
  update_loop_timestamp,
}
use tinyco.Frame.Pending.{sleep, wakeup_pending_thread}

module _ (H : TimerHeap) where
  pub data Step (f : Frame) : Frame → Type 0 where
    -- A coroutine creates another, or waits for a descriptor that nobody else waits for.
    creates : (t work : ℕ) → f.cpu ≡ some t → Step f (create_thread work f).0
    waits :
        (t fd : ℕ) (g : Frame)
        → f.cpu ≡ some t
        → find_fd fd f.io_wait_map ≡ none
        → wait_io fd f ≡ some g
        → Step f g
    -- It sleeps, or its work is done.
    sleeps : (t now ms : ℕ) → f.cpu ≡ some t → Step f (sleep H now ms f)
    ends : (t : ℕ) (g : Frame) → f.cpu ≡ some t → handle_process_end f ≡ some g → Step f g
    -- The four statements of `MainThreadLoop`, with one call of the callback for each event.
    updates : (now : ℕ) → f.cpu ≡ none → Step f (update_loop_timestamp now f)
    polls : (fd : ℕ) (g : Frame) → f.cpu ≡ none → socket_read_or_write fd f ≡ some g → Step f g
    wakes : f.cpu ≡ none → Step f (wakeup_pending_thread H f)
    schedules : f.cpu ≡ none → Step f (schedule f)

  -- What `Frame::Init` makes of the program's start, and the states after that.
  pub data Reach : Frame → Type 0 where
    started : (pool : ℕ) → Reach (init pool boot).0
    stepped : {f g : Frame} → Reach f → Step f g → Reach g
