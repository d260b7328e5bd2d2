-- ===== src/Sender/Threads/Wakeup.antt =====
-- The condition variable of the sender wakes the worker whenever there is something to do.
use zprd.Prelude.{
  ◌≡◌, ◌≢◌, ◌⊎◌, inl, inr, refl, ◌∙◌, arith, List, [], ◌∷◌, Bool, true, false, not, ◌&&◌, is_empty,
  Bool-cases,
}
use zprd.Peer.{Heap}
use zprd.Sender.{SendData, ZprnSdat, SenderQueue, enqueue_data, enqueue_zprn}
use zprd.Sender.Threads.{
  Place, at_mutex, asleep, behind, ended, woken, Threads, History, Run, begin, send, send_zprn,
  notify, wakes_up, halt, works, work, let_in, let_in_zprn,
}
use zprd.Sender.Threads.Fifo.{
  work-takes, work-returns, work-waits, enqueue_data-let_in, enqueue_zprn-let_in,
}
use zprd.Sender.Worker.{WorkerState}

-- There is nothing to do: no packet, no message, and stop was not called.
abbrev pub IsIdle : SenderQueue → Type 0
IsIdle q = (q.tasks ≡ []) × (q.zprn_msgs ≡ []) × (q.stop ≡ false)

-- The worker sleeps only if there is nothing to do, or the main thread is about to wake it.
abbrev pub IsAwaited : Threads → Type 0
IsAwaited t = (t.place ≢ asleep) ⊎ ((t.owes_notify ≡ true) ⊎ IsIdle t.queue)

woken-ne-asleep : (place : Place) → woken place ≢ asleep
unfolding woken
woken-ne-asleep at_mutex = λ e. cc
woken-ne-asleep asleep = λ e. cc
woken-ne-asleep (behind ts ms) = λ e. cc
woken-ne-asleep ended = λ e. cc

pub is_empty-both {ℓ₁ ℓ₂} :
    {A : Type ℓ₁} {B : Type ℓ₂} (xs : List A) (ys : List B)
    → (is_empty xs && is_empty ys) ≡ true
    → (xs ≡ []) × (ys ≡ [])
is_empty-both [] [] h = (refl, refl)
is_empty-both [] (y ∷ ys) h = ground arith
is_empty-both (x ∷ xs) ys h = ground arith

empty_of_test {ℓ} : {A : Type ℓ} (xs : List A) → not (is_empty xs) ≡ false → xs ≡ []
empty_of_test [] h = refl
empty_of_test (x ∷ xs) h = ground arith

enqueue_data-stop :
    (heap : Heap) (dat : SendData) (q : SenderQueue) → (enqueue_data heap dat q).stop ≡ q.stop
unfolding enqueue_data
enqueue_data-stop heap dat q = ground arith

enqueue_zprn-stop :
    (heap : Heap) (dat : ZprnSdat) (q : SenderQueue) → (enqueue_zprn heap dat q).stop ≡ q.stop
unfolding enqueue_zprn
enqueue_zprn-stop heap dat q = ground arith

module _ (round : Heap → List SendData → List ZprnSdat → WorkerState → WorkerState)
    (w : WorkerState) where
  work-IsAwaited :
      (heap : Heap) (q : SenderQueue) (place : Place) (v : WorkerState) (o : Bool)
      → let t : Threads = record { queue = q; place = place; worker = v; owes_notify = o } in
        IsAwaited t → IsAwaited (work round heap t)
  unfolding work
  work-IsAwaited heap q at_mutex v o h =
      elim (Bool-cases (is_empty q.tasks && is_empty q.zprn_msgs)) [
        | inr some_left ↦ rw (work-takes round heap q v o some_left) (inl (λ e. cc))
        | inl empty ↦ elim (Bool-cases q.stop) [
          | inl stopped ↦ rw (work-returns round heap q v o empty stopped) (inl (λ e. cc))
          | inr going ↦
              let (no_tasks, no_msgs) = is_empty-both q.tasks q.zprn_msgs empty in
              rw (work-waits round heap q v o empty going) (inr (inr (no_tasks, no_msgs, going)))
        ]
      ]
  work-IsAwaited heap q asleep v o h = h
  work-IsAwaited heap q (behind ts ms) v o h = inl (λ e. cc)
  work-IsAwaited heap q ended v o h = inl (λ e. cc)

  -- The main thread puts something into the queue, or nothing.
  put-IsAwaited {ℓ} :
      {A : Type ℓ} (added : List A) (t : Threads) (q : SenderQueue)
      → t.owes_notify ≡ false
      → (added ≡ [] → IsIdle t.queue → IsIdle q)
      → IsAwaited t
      → IsAwaited (record t { queue = q; owes_notify = not (is_empty added) })
  put-IsAwaited added t q free idle (inl awake) = inl awake
  put-IsAwaited added t q free idle (inr (inl owed)) = absurd (cc (free, owed))
  put-IsAwaited added t q free idle (inr (inr before)) = elim (Bool-cases (not (is_empty added))) [
    | inl put ↦ inr (inl put)
    | inr nothing ↦ inr (inr (idle (empty_of_test added nothing) before))
  ]

  -- In every run of the two threads, whenever the worker is asleep in wait, either there is nothing
  -- for it to do, that is no packet and no message is queued and stop was not called, or the main
  -- thread is about to call notify: no wake-up is lost.
  pub Run-IsAwaited : (h : History) (t : Threads) → Run round w h t → IsAwaited t
  Run-IsAwaited h t begin = inl (λ e. cc)
  Run-IsAwaited h t (send {h = g} {t = u} heap dat free r) =
      let (added, same) = enqueue_data-let_in round w heap dat u.queue in
      put-IsAwaited (let_in heap dat) u _ free
        (λ none i.
          (added ∙ rw (i.0, none) refl, same ∙ i.1, enqueue_data-stop heap dat u.queue ∙ i.2))
        (Run-IsAwaited g u r)
  Run-IsAwaited h t (send_zprn {h = g} {t = u} heap dat free r) =
      let (added, same) = enqueue_zprn-let_in round w heap dat u.queue in
      put-IsAwaited (let_in_zprn heap dat) u _ free
        (λ none i.
          (same ∙ i.0, added ∙ rw (i.1, none) refl, enqueue_zprn-stop heap dat u.queue ∙ i.2))
        (Run-IsAwaited g u r)
  Run-IsAwaited h t (halt {h = g} {t = u} free r) = inr (inl refl)
  Run-IsAwaited h t (notify {h = g} {t = u} owed r) = inl (woken-ne-asleep u.place)
  Run-IsAwaited h t (wakes_up {h = g} {t = u} r) = inl (woken-ne-asleep u.place)
  Run-IsAwaited h t (works {h = g} {t = u} heap r) =
      work-IsAwaited heap u.queue u.place u.worker u.owes_notify (Run-IsAwaited g u r)
