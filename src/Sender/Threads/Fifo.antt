-- ===== src/Sender/Threads/Fifo.antt =====
-- The sender's two threads lose, repeat and reorder nothing on the way to a round of the worker.
use zprd.Prelude.{
  ◌≡◌, inl, inr, refl, ap, sym, ◌∙◌, arith, List, [], ◌++◌, Bool, true, false, ◌&&◌, is_empty,
  Bool-cases,
}
use mathlib.Core.List.{append_assoc, append-nil}
use zprd.Peer.{Heap}
use zprd.Sender.{SendData, ZprnSdat, SenderQueue, enqueue_data, enqueue_zprn, wake}
use zprd.Sender.Threads.{
  Place, at_mutex, asleep, behind, ended, woken, Threads, History, Run, begin, send, send_zprn,
  notify, wakes_up, halt, works, IsFifo, work, worked, let_in, let_in_zprn, tasks_behind,
  msgs_behind,
}
use zprd.Sender.Worker.{WorkerState}

-- What one step of the worker does at the mutex.
pub work-takes :
    (round : Heap → List SendData → List ZprnSdat → WorkerState → WorkerState) (heap : Heap)
    (q : SenderQueue) (v : WorkerState) (o : Bool)
    → (is_empty q.tasks && is_empty q.zprn_msgs) ≡ false
    → work round heap (record { queue = q; place = at_mutex; worker = v; owes_notify = o })
      ≡ record {
        queue = record q { tasks = []; zprn_msgs = [] };
        place = behind q.tasks q.zprn_msgs;
        worker = v;
        owes_notify = o;
      }
unfolding work wake
work-takes round heap q v o some_left = rw (some_left, work) refl

pub work-returns :
    (round : Heap → List SendData → List ZprnSdat → WorkerState → WorkerState) (heap : Heap)
    (q : SenderQueue) (v : WorkerState) (o : Bool)
    → (is_empty q.tasks && is_empty q.zprn_msgs) ≡ true
    → q.stop ≡ true
    → work round heap (record { queue = q; place = at_mutex; worker = v; owes_notify = o })
      ≡ record { queue = q; place = ended; worker = v; owes_notify = o }
unfolding work wake
work-returns round heap q v o empty stopped = simp (empty, stopped, work)

pub work-waits :
    (round : Heap → List SendData → List ZprnSdat → WorkerState → WorkerState) (heap : Heap)
    (q : SenderQueue) (v : WorkerState) (o : Bool)
    → (is_empty q.tasks && is_empty q.zprn_msgs) ≡ true
    → q.stop ≡ false
    → work round heap (record { queue = q; place = at_mutex; worker = v; owes_notify = o })
      ≡ record { queue = q; place = asleep; worker = v; owes_notify = o }
unfolding work wake
work-waits round heap q v o empty going = simp (empty, going, work)

tasks_behind-woken : (place : Place) → tasks_behind (woken place) ≡ tasks_behind place
unfolding woken
tasks_behind-woken at_mutex = refl
tasks_behind-woken asleep = refl
tasks_behind-woken (behind ts ms) = refl
tasks_behind-woken ended = refl

msgs_behind-woken : (place : Place) → msgs_behind (woken place) ≡ msgs_behind place
unfolding woken
msgs_behind-woken at_mutex = refl
msgs_behind-woken asleep = refl
msgs_behind-woken (behind ts ms) = refl
msgs_behind-woken ended = refl

module _ (round : Heap → List SendData → List ZprnSdat → WorkerState → WorkerState)
    (w : WorkerState) where
  pub enqueue_data-let_in :
      (heap : Heap) (dat : SendData) (q : SenderQueue)
      → ((enqueue_data heap dat q).tasks ≡ q.tasks ++ let_in heap dat)
        × ((enqueue_data heap dat q).zprn_msgs ≡ q.zprn_msgs)
  unfolding enqueue_data
  enqueue_data-let_in heap dat q = ground (arith, append-nil q.tasks)

  pub enqueue_zprn-let_in :
      (heap : Heap) (dat : ZprnSdat) (q : SenderQueue)
      → ((enqueue_zprn heap dat q).zprn_msgs ≡ q.zprn_msgs ++ let_in_zprn heap dat)
        × ((enqueue_zprn heap dat q).tasks ≡ q.tasks)
  unfolding enqueue_zprn
  enqueue_zprn-let_in heap dat q = ground (arith, append-nil q.zprn_msgs)

  still :
      (h : History) (q : SenderQueue)
      → IsFifo round w h (record { queue = q; place = at_mutex; worker = w; owes_notify = false })
      → (h.tasks_in ≡ (h.tasks_out ++ []) ++ q.tasks)
        × (h.msgs_in ≡ (h.msgs_out ++ []) ++ q.zprn_msgs)
  still h q (tasks, msgs) = (rw (append-nil h.tasks_out) tasks, rw (append-nil h.msgs_out) msgs)

  took :
      (h : History) (q : SenderQueue)
      → IsFifo round w h (record { queue = q; place = at_mutex; worker = w; owes_notify = false })
      → (h.tasks_in ≡ (h.tasks_out ++ []) ++ (q.tasks ++ []))
        × (h.msgs_in ≡ (h.msgs_out ++ []) ++ (q.zprn_msgs ++ []))
  took h q fifo = rw (append-nil q.tasks, append-nil q.zprn_msgs) (still h q fifo)

  work-IsFifo :
      (h : History) (heap : Heap) (q : SenderQueue) (place : Place) (v : WorkerState) (o : Bool)
      → let t : Threads = record { queue = q; place = place; worker = v; owes_notify = o } in
        IsFifo round w h t → IsFifo round w (worked t h) (work round heap t)
  unfolding work
  work-IsFifo h heap q at_mutex v o fifo =
      elim (Bool-cases (is_empty q.tasks && is_empty q.zprn_msgs)) [
        | inr some_left ↦ rw (work-takes round heap q v o some_left) (took h q fifo)
        | inl empty ↦ elim (Bool-cases q.stop) [
          | inl stopped ↦ rw (work-returns round heap q v o empty stopped) (still h q fifo)
          | inr going ↦ rw (work-waits round heap q v o empty going) (still h q fifo)
        ]
      ]
  work-IsFifo h heap q (behind ts ms) v o (tasks, msgs) = (
    tasks ∙ sym (append_assoc h.tasks_out ts q.tasks),
    msgs ∙ sym (append_assoc h.msgs_out ms q.zprn_msgs),
  )
  work-IsFifo h heap q asleep v o fifo = still h q fifo
  work-IsFifo h heap q ended v o fifo = still h q fifo

  woken-IsFifo :
      (h : History) (t : Threads)
      → IsFifo round w h t
      → IsFifo round w h (record t { place = woken t.place })
  woken-IsFifo h t fifo = rw (tasks_behind-woken t.place, msgs_behind-woken t.place) fifo

  more {ℓ} :
      {A : Type ℓ} (ins out held queued queued2 added : List A)
      → ins ≡ out ++ (held ++ queued)
      → queued2 ≡ queued ++ added
      → ins ++ added ≡ out ++ (held ++ queued2)
  more ins out held queued queued2 added h k =
      rw (h, k, append_assoc out (held ++ queued) added, append_assoc held queued added) refl

  -- In every run of the two threads, the packets and the messages that enqueue lets through reach
  -- a round of the worker exactly once and in order: what went in is what came out, then what the
  -- worker took, then what is queued.
  pub Run-IsFifo : (h : History) (t : Threads) → Run round w h t → IsFifo round w h t
  Run-IsFifo h t begin = (refl, refl)
  Run-IsFifo h t (send {h = g} {t = u} heap dat free r) =
      let (tasks, msgs) = Run-IsFifo g u r in
      let (added, same) = enqueue_data-let_in heap dat u.queue in
      (
        more _ _ (tasks_behind u.place) _ _ _ tasks added,
        msgs ∙ ap (λ q. g.msgs_out ++ (msgs_behind u.place ++ q)) (sym same),
      )
  Run-IsFifo h t (send_zprn {h = g} {t = u} heap dat free r) =
      let (tasks, msgs) = Run-IsFifo g u r in
      let (added, same) = enqueue_zprn-let_in heap dat u.queue in
      (
        tasks ∙ ap (λ q. g.tasks_out ++ (tasks_behind u.place ++ q)) (sym same),
        more _ _ (msgs_behind u.place) _ _ _ msgs added,
      )
  Run-IsFifo h t (halt {h = g} {t = u} free r) = Run-IsFifo g u r
  Run-IsFifo h t (notify {h = g} {t = u} owed r) = woken-IsFifo g u (Run-IsFifo g u r)
  Run-IsFifo h t (wakes_up {h = g} {t = u} r) = woken-IsFifo g u (Run-IsFifo g u r)
  Run-IsFifo h t (works {h = g} {t = u} heap r) =
      work-IsFifo g heap u.queue u.place u.worker u.owes_notify (Run-IsFifo g u r)
