-- ===== src/Sender/Threads.antt =====
-- The two threads of the sender: the main thread calls enqueue and stop, the worker thread runs
-- worker_fn. A step is a critical section of the mutex, the part of a round behind it, or a call of
-- notify on the condition variable, which the main thread makes when it has left the mutex.
pub mod Fifo
pub mod Finish
pub mod Wakeup
use zprd.Prelude.{
  ℕ, zero, suc, ◌≡◌, ◌≢◌, ◌⊎◌, inl, inr, refl, ap, sym, ◌∙◌, arith, List, [], ◌∷◌, ◌++◌, Bool, true,
  false, not, ◌&&◌, is_empty, Bool-cases, if◌then◌else◌,
}
use mathlib.Core.List.{append_assoc, append-nil}
use zprd.Peer.{Heap}
use zprd.Sender.{
  SendData, ZprnSdat, SenderQueue, Wake, waits, returns, takes, enqueue_data, enqueue_zprn, stop,
  wake, empty_queue,
}
use zprd.Sender.Worker.{WorkerState, worker_round}

-- Where the worker is: at the mutex, asleep in `_cond.wait`, behind the mutex with what it took, or
-- at its end.
pub data Place : Type 0 where
  at_mutex : Place
  asleep : Place
  behind : List SendData → List ZprnSdat → Place
  ended : Place

-- `owes_notify` tells that the main thread has left the mutex and is about to call notify.
pub record Threads : Type 0 where
  pub queue : SenderQueue
  pub place : Place
  pub worker : WorkerState
  pub owes_notify : Bool

-- What the worker does next, by itself; it sleeps if it has to wait, and does nothing while it
-- sleeps. `heap` holds the peers as the round finds them.
unfoldable pub work :
    (Heap → List SendData → List ZprnSdat → WorkerState → WorkerState) → Heap → Threads → Threads
work round heap t = elim t.place [
  | at_mutex ↦ elim (wake t.queue) [
    | waits ↦ record t { place = asleep }
    | returns ↦ record t { place = ended }
    | takes tasks msgs rest ↦ record t { queue = rest; place = behind tasks msgs }
  ]
  | asleep ↦ t
  | behind tasks msgs ↦ record t { place = at_mutex; worker = round heap tasks msgs t.worker }
  | ended ↦ t
]

-- `_cond.wait` comes back to the mutex: after notify_one or notify_all, or for no reason.
unfoldable pub woken : Place → Place
woken asleep = at_mutex
woken at_mutex = at_mutex
woken (behind tasks msgs) = behind tasks msgs
woken ended = ended

-- The round of the worker, over the sockets that there are.
abbrev pub round_of :
    (ℕ → Bool) → Bool → Heap → List SendData → List ZprnSdat → WorkerState → WorkerState
round_of has_fd df_ok heap = worker_round heap has_fd df_ok

abbrev pub tasks_behind : Place → List SendData
tasks_behind at_mutex = []
tasks_behind asleep = []
tasks_behind (behind tasks msgs) = tasks
tasks_behind ended = []

abbrev pub msgs_behind : Place → List ZprnSdat
msgs_behind at_mutex = []
msgs_behind asleep = []
msgs_behind (behind tasks msgs) = msgs
msgs_behind ended = []

-- What went in by enqueue, and what the worker ran a round on.
pub record History : Type 0 where
  pub tasks_in : List SendData
  pub tasks_out : List SendData
  pub msgs_in : List ZprnSdat
  pub msgs_out : List ZprnSdat

-- What enqueue lets through.
abbrev pub let_in : Heap → SendData → List SendData
let_in heap dat = (enqueue_data heap dat empty_queue).tasks

abbrev pub let_in_zprn : Heap → ZprnSdat → List ZprnSdat
let_in_zprn heap dat = (enqueue_zprn heap dat empty_queue).zprn_msgs

-- The worker passes the mutex with what it took, or finishes its round.
abbrev pub worked : Threads → History → History
worked t h = record h {
  tasks_out = h.tasks_out ++ tasks_behind t.place;
  msgs_out = h.msgs_out ++ msgs_behind t.place;
}

-- All runs from an empty queue, in any interleaving of the threads. A call of enqueue or stop is a
-- change of the queue and, unless enqueue drops what it got, a call of notify later. `wait` may
-- also come back for no reason.
module _ (round : Heap → List SendData → List ZprnSdat → WorkerState → WorkerState)
    (w : WorkerState) where
  pub data Run : History → Threads → Type 0 where
    begin :
        Run
          (record { tasks_in = []; tasks_out = []; msgs_in = []; msgs_out = [] })
          (record { queue = empty_queue; place = at_mutex; worker = w; owes_notify = false })
    send :
        {h : History} {t : Threads} (heap : Heap) (dat : SendData)
        → t.owes_notify ≡ false
        → Run h t
        → Run
            (record h { tasks_in = h.tasks_in ++ let_in heap dat })
            (record t {
              queue = enqueue_data heap dat t.queue;
              owes_notify = not (is_empty (let_in heap dat));
            })
    send_zprn :
        {h : History} {t : Threads} (heap : Heap) (dat : ZprnSdat)
        → t.owes_notify ≡ false
        → Run h t
        → Run
            (record h { msgs_in = h.msgs_in ++ let_in_zprn heap dat })
            (record t {
              queue = enqueue_zprn heap dat t.queue;
              owes_notify = not (is_empty (let_in_zprn heap dat));
            })
    halt :
        {h : History} {t : Threads}
        → t.owes_notify ≡ false
        → Run h t
        → Run h (record t { queue = stop t.queue; owes_notify = true })
    notify :
        {h : History} {t : Threads}
        → t.owes_notify ≡ true
        → Run h t
        → Run h (record t { place = woken t.place; owes_notify = false })
    wakes_up : {h : History} {t : Threads} → Run h t → Run h (record t { place = woken t.place })
    works :
        {h : History} {t : Threads} (heap : Heap) → Run h t → Run (worked t h) (work round heap t)

  -- What went in is what came out, what the worker holds, and what is queued, in this order.
  abbrev pub IsFifo : History → Threads → Type 0
  IsFifo h t =
      (h.tasks_in ≡ h.tasks_out ++ (tasks_behind t.place ++ t.queue.tasks))
      × (h.msgs_in ≡ h.msgs_out ++ (msgs_behind t.place ++ t.queue.zprn_msgs))
