-- ===== src/Server/Tracking.antt =====
-- The connections that ConnTracker of server.h counts: `NewConn` of TcpSrvWork, and `RemoveConn` of
-- `~TcpReqWork`; as a set of descriptors.
use tinyco.Prelude.{
  ℕ, ◌≡◌, refl, ◌∙◌, ◌↔◌, Bool, true, false, Option, none, some, List, [], ◌∷◌, arith, ◌==◌,
  if◌then◌else◌, length, count,
}
use tinyco.Server.Loops.{ConnTracker, without, new_conn, remove_conn, get_conn_size}
use tinyco.Server.Workers.{shuts_down}

-- `TcpReqWork`: its descriptor, and whether it has a tracker.
pub record TcpReqWork : Type 0 where
  pub sockfd : Option ℕ
  pub tracked : Bool

-- `~TcpReqWork`, on the tracker, with the descriptor that is closed.
unfoldable pub end_work : TcpReqWork → ConnTracker → ConnTracker × Option ℕ
unfolding remove_conn
end_work w t =
    (elim w.sockfd [ none ↦ t | some fd ↦ if w.tracked then remove_conn fd t else t ], w.sockfd)

-- What happens to the tracker: a connection is accepted, or its work ends.
pub data ConnEvent : Type 0 where
  accepted ended : ℕ → ConnEvent

unfoldable pub track : ConnEvent → ConnTracker → ConnTracker
unfolding new_conn end_work
track (accepted fd) t = new_conn fd t
track (ended fd) t = (end_work (record { sockfd = some fd; tracked = true }) t).0

unfoldable pub track_all : List ConnEvent → ConnTracker → ConnTracker
unfolding track
track_all [] t = t
track_all (e ∷ es) t = track_all es (track e t)

-- The specification: a set of open descriptors.
abbrev pub change : ConnEvent → (ℕ → Bool) → ℕ → Bool
change (accepted fd) f n = if fd == n then true else f n
change (ended fd) f n = if fd == n then false else f n

abbrev pub change_all : List ConnEvent → (ℕ → Bool) → ℕ → Bool
change_all [] f = f
change_all (e ∷ es) f = change_all es (change e f)

-- The tracker has each open descriptor once, and no other.
abbrev pub Tracks : (ℕ → Bool) → ConnTracker → Type 0
Tracks f t = (n : ℕ) → count n t.conns ≡ (if f n then 1 else 0)

count-without :
    (fd n : ℕ) (cs : List ℕ) → count n (without fd cs) ≡ (if fd == n then 0 else count n cs)
count-without fd n [] = ground arith
count-without fd n (c ∷ cs) = let rest = count-without fd n cs in ground arith

track-Tracks :
    (e : ConnEvent) (f : ℕ → Bool) (t : ConnTracker) → Tracks f t → Tracks (change e f) (track e t)
unfolding track new_conn end_work remove_conn
track-Tracks (accepted fd) f t h n =
    let rest = count-without fd n t.conns in let old = h n in ground arith
track-Tracks (ended fd) f t h n =
    let rest = count-without fd n t.conns in let old = h n in ground arith

pub track_all-Tracks :
    (es : List ConnEvent) (f : ℕ → Bool) (t : ConnTracker)
    → Tracks f t
    → Tracks (change_all es f) (track_all es t)
unfolding track_all
track_all-Tracks [] f t h = h
track_all-Tracks (e ∷ es) f t h =
    track_all-Tracks es (change e f) (track e t) (track-Tracks e f t h)

length_none : (cs : List ℕ) → length cs ≡ 0 → cs ≡ []
length_none [] h = refl
length_none (c ∷ cs) h = absurd (omega arith)

-- A list in which nothing is counted.
count_none : (cs : List ℕ) → ((n : ℕ) → count n cs ≡ 0) → cs ≡ []
count_none [] h = refl
count_none (c ∷ cs) h = absurd (let one = h c in ground arith)

graceful-track :
    (e : ConnEvent) (t : ConnTracker) → (track e t).graceful_shutdown ≡ t.graceful_shutdown
unfolding track new_conn end_work remove_conn
graceful-track (accepted fd) t = refl
graceful-track (ended fd) t = refl

pub graceful-track_all :
    (es : List ConnEvent) (t : ConnTracker)
    → (track_all es t).graceful_shutdown ≡ t.graceful_shutdown
unfolding track_all
graceful-track_all [] t = refl
graceful-track_all (e ∷ es) t = graceful-track_all es (track e t) ∙ graceful-track e t

shuts_down_iff :
    (f : ℕ → Bool) (t : ConnTracker)
    → Tracks f t
    → t.graceful_shutdown ≡ true
    → (shuts_down t ≡ true) ↔ ((n : ℕ) → f n ≡ false)
unfolding shuts_down get_conn_size
shuts_down_iff f t h on = (
  λ e n.
      let empty : length t.conns ≡ 0 = ground arith in
      let none_left : t.conns ≡ [] = length_none t.conns empty in
      let counted : count n t.conns ≡ 0 = rw none_left refl in let old = h n in ground arith,
  λ all.
      let none_left : t.conns ≡ [] = count_none t.conns (λ n. h n ∙ rw (all n) refl) in
      rw (on, none_left) refl,
)

-- Whatever connections are accepted and end, in any order: the tracker has each descriptor once that was
-- accepted and has not ended since, and no other; and with `graceful_shutdown_` the worker's loop ends at
-- its next round exactly when there is none.
pub track_all-shuts_down :
    (es : List ConnEvent) (f : ℕ → Bool) (t : ConnTracker)
    → Tracks f t
    → t.graceful_shutdown ≡ true
    → Tracks (change_all es f) (track_all es t)
      × ((shuts_down (track_all es t) ≡ true) ↔ ((n : ℕ) → change_all es f n ≡ false))
track_all-shuts_down es f t h on =
    let tracks = track_all-Tracks es f t h in
    (
      tracks,
      shuts_down_iff (change_all es f) (track_all es t) tracks (graceful-track_all es t ∙ on),
    )
