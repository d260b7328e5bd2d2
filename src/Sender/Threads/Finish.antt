-- ===== src/Sender/Threads/Finish.antt =====
-- stop lets the worker finish what is queued before it ends.
use zprd.Prelude.{
  ◌≡◌, ◌≢◌, inl, inr, refl, ap, sym, ◌∙◌, List, [], ◌++◌, Bool, true, false, ◌&&◌, is_empty,
  Bool-cases,
}
use mathlib.Core.List.{append-nil}
use zprd.Peer.{Heap}
use zprd.Sender.{SendData, ZprnSdat, SenderQueue}
use zprd.Sender.Threads.{
  Place, at_mutex, asleep, behind, ended, Threads, History, Run, works, work, worked, tasks_behind,
  msgs_behind,
}
use zprd.Sender.Threads.Fifo.{work-takes, work-returns, Run-IsFifo}
use zprd.Sender.Threads.Wakeup.{is_empty-both, IsAwaited, Run-IsAwaited}
use zprd.Sender.Worker.{WorkerState}

module _ (round : Heap → List SendData → List ZprnSdat → WorkerState → WorkerState)
    (heap : Heap) where
  abbrev at : SenderQueue → Place → WorkerState → Bool → Threads
  at q place v o = record { queue = q; place = place; worker = v; owes_notify = o }

  abbrev pub IsFinished : Threads → Type 0
  IsFinished t = (t.place ≡ ended) × (t.queue.tasks ≡ []) × (t.queue.zprn_msgs ≡ [])

  finish_at_mutex :
      (q : SenderQueue) (v : WorkerState) (o : Bool)
      → q.stop ≡ true
      → let t = work round heap (work round heap (work round heap (at q at_mutex v o))) in
        IsFinished t × IsFinished (work round heap t)
  unfolding work
  finish_at_mutex q v o stopped = elim (Bool-cases (is_empty q.tasks && is_empty q.zprn_msgs)) [
    | inl empty ↦ rw (work-returns round heap q v o empty stopped) (
        let (no_tasks, no_msgs) = is_empty-both q.tasks q.zprn_msgs empty in
        ((refl, no_tasks, no_msgs), (refl, no_tasks, no_msgs)))
    | inr some_left ↦
        let rest = record q { tasks = []; zprn_msgs = [] } in
        let v2 = round heap q.tasks q.zprn_msgs v in
        rw (work-takes round heap q v o some_left) (
          rw (work-returns round heap rest v2 o refl stopped)
            ((refl, refl, refl), (refl, refl, refl)))
  ]

  -- The worker alone, four times.
  abbrev pub finish : Threads → Threads
  finish t = work round heap (work round heap (work round heap (work round heap t)))

  finish-IsFinished :
      (q : SenderQueue) (place : Place) (v : WorkerState) (o : Bool)
      → q.stop ≡ true
      → place ≢ ended
      → place ≢ asleep
      → IsFinished (finish (at q place v o))
  unfolding work
  finish-IsFinished q at_mutex v o stopped going awake =
      let (_, done) = finish_at_mutex q v o stopped in done
  finish-IsFinished q (behind ts ms) v o stopped going awake =
      let (done, _) = finish_at_mutex q (round heap ts ms v) o stopped in done
  finish-IsFinished q asleep v o stopped going awake = absurd (awake refl)
  finish-IsFinished q ended v o stopped going awake = absurd (going refl)

  nothing_left {ℓ} :
      {A : Type ℓ} (ins out held queued : List A)
      → ins ≡ out ++ (held ++ queued)
      → held ≡ []
      → queued ≡ []
      → out ≡ ins
  nothing_left ins out held queued h none_held none_queued =
      sym (h ∙ rw (none_held, none_queued) (append-nil out))

  not_asleep :
      (t : Threads) → t.queue.stop ≡ true → t.owes_notify ≡ false → IsAwaited t → t.place ≢ asleep
  not_asleep t stopped returned (inl awake) = awake
  not_asleep t stopped returned (inr (inl owed)) = absurd (cc (returned, owed))
  not_asleep t stopped returned (inr (inr (_, _, going))) = absurd (cc (stopped, going))

  -- Once stop has returned in a run, with its notify, and the worker has not ended, it is not
  -- asleep and ends in at most four of its own steps, and by then a round has run on every packet
  -- and every message that enqueue let through in the run, in the order in which they came, with
  -- nothing left in the queue.
  pub Run-finish :
      (w : WorkerState) (h : History) (t : Threads)
      → Run round w h t
      → t.queue.stop ≡ true
      → t.owes_notify ≡ false
      → t.place ≢ ended
      → (t.place ≢ asleep)
        × (g : History) × Run round w g (finish t)
        × IsFinished (finish t)
        × (g.tasks_out ≡ h.tasks_in)
        × (g.msgs_out ≡ h.msgs_in)
  Run-finish w h t run stopped returned going =
      let awake = not_asleep t stopped returned (Run-IsAwaited round w h t run) in
      let g1 = worked t h in
      let t1 = work round heap t in
      let g2 = worked t1 g1 in
      let t2 = work round heap t1 in
      let g3 = worked t2 g2 in
      let t3 = work round heap t2 in
      let g4 = worked t3 g3 in
      let r = works heap (works heap (works heap (works heap run))) in
      let (done, no_tasks, no_msgs) =
        finish-IsFinished t.queue t.place t.worker t.owes_notify stopped going awake in
      let (tasks, msgs) = Run-IsFifo round w g4 (finish t) r in
      (
        awake,
        g4,
        r,
        (done, no_tasks, no_msgs),
        nothing_left _ _ _ _ tasks (ap tasks_behind done) no_tasks,
        nothing_left _ _ _ _ msgs (ap msgs_behind done) no_msgs,
      )
