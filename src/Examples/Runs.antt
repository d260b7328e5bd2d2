-- ===== src/Examples/Runs.antt =====
-- The event loop, the cleanup and the two threads of the sender at concrete inputs.
use zprd.Prelude.{ℕ, ◌≡◌, ◌≢◌, ◌⊎◌, inl, refl, arith, List, [], ◌∷◌, ◌++◌, Bool, true, false, codes}
use zprd.Bytes.{htons, memcmp}
use zprd.Oafa.{gp_port, sa_compare, sa_family2size}
use zprd.Peer.{Ptr, Heap, peer_eq}
use zprd.Remotes.Sort.{AreDistinct}
use zprd.Router.{Router}
use zprd.Router.Invariant.{Inv}
use zprd.Router.Loop.{
  tun_input, server_input, Round, Loop, loop_round, IsDue, IsQuiet, ticked, loop_round-Inv,
}
use zprd.Router.Packet6.{route6_packet}
use zprd.Router.Packet6.Queued.{IsRouted6, route6_packet-Queues}
use zprd.Router.Queues.{Queues}
use zprd.Router.Timers.{cleanup_round}
use zprd.Router.Timers.Forget.{IsGone}
use zprd.Router.Timers.Discard.{cleanup_round-IsGone}
use zprd.Sender.{SendData, ZprnSdat, empty_queue, stop, wake, enqueue_data}
use zprd.Sender.Threads.{
  at_mutex, asleep, ended, woken, Threads, History, Run, begin, send, halt, notify, works, IsFifo,
  let_in, round_of, work,
}
use zprd.Sender.Threads.Fifo.{Run-IsFifo}
use zprd.Sender.Threads.Wakeup.{IsAwaited, Run-IsAwaited}
use zprd.Sender.Threads.Finish.{Run-finish, IsFinished, finish}
use zprd.Sender.Worker.{WorkerState}
use zprd.Text.{sa2string}
use zprd.Text.Port.{read_number, behind_colon, sa2string-port}
use zprd.Examples.{at_host, test_heap, test_router}
use zprd.Examples.Route.{test_env, both-IsSorted, unresolved, unshared}

test_router-Inv : Inv test_router
test_router-Inv = record {
  sorted = both-IsSorted;
  peers = ((omega arith, refl), ((omega arith, refl), tt));
}

-- An IPv6 packet of 40 bytes with a hop limit of 64.
abbrev pub packet6 : List ℕ
packet6 =
    0x60 ∷ 0 ∷ 0 ∷ 0 ∷ 0 ∷ 0 ∷ 17 ∷ 64 ∷ 0xfd ∷ 0 ∷ 0 ∷ 0 ∷ 0 ∷ 0 ∷ 0 ∷ 0 ∷ 0 ∷ 0 ∷ 0 ∷ 0 ∷ 0 ∷ 0
    ∷ 0 ∷ 1 ∷ 0xfd ∷ 0 ∷ 0 ∷ 0 ∷ 0 ∷ 0 ∷ 0 ∷ 0 ∷ 0 ∷ 0 ∷ 0 ∷ 0 ∷ 0 ∷ 0 ∷ 0 ∷ 2 ∷ []

route6_packet-Queues_example :
    Queues
      (IsRouted6 test_env.stack 1 packet6 40 test_router)
      test_router
      (route6_packet test_env 1 packet6 40 test_router)
route6_packet-Queues_example =
    route6_packet-Queues test_env 1 packet6 40 test_router both-IsSorted (omega arith) (omega arith)

-- The packet comes from the tun device, and from a new peer; a minute is over.
abbrev busy : Round
busy = record {
  inputs = tun_input test_env packet6 40 ∷ server_input test_env (at_host 3) packet6 40 ∷ [];
  now = 160;
  resolve = unresolved;
  use_count = unshared;
}

abbrev before_busy : Loop
before_busy = record { router = test_router; pastt_clu = 100; found_remotes = [] }

loop_round-Inv_example :
    Inv (ticked 0 busy before_busy)
    × ((IsQuiet 0 busy before_busy
          × (loop_round 0 busy before_busy
              ≡ record before_busy { router = ticked 0 busy before_busy }))
        ⊎ (let (s, found) = cleanup_round unresolved unshared [] (ticked 0 busy before_busy) in
            IsDue 0 busy before_busy
            × (loop_round 0 busy before_busy
                ≡ record { router = s; pastt_clu = 160; found_remotes = found })))
loop_round-Inv_example = loop_round-Inv 0 busy before_busy (tt, (omega arith, tt)) test_router-Inv

both-AreDistinct : AreDistinct test_heap (2 ∷ 1 ∷ [])
unfolding peer_eq sa_compare memcmp sa_family2size
both-AreDistinct = ((refl, tt), (tt, tt))

-- Both peers timed out.
abbrev late : Router
late = record test_router { last_time = 450 }

late-IsGone : (p : Ptr) → IsGone late p
late-IsGone p = inl (ground arith)

cleanup_round-IsGone_example : IsGone (cleanup_round unresolved unshared [] late).0 2
cleanup_round-IsGone_example = cleanup_round-IsGone unresolved unshared [] late late-IsGone 2

sa2string-port_example :
    read_number 0
      (behind_colon [] (sa2string (λ af addr. codes "10.0.0.1") (at_host 1) (codes "peer ")))
    ≡ htons 29875
unfolding gp_port
sa2string-port_example =
    sa2string-port (λ af addr. codes "10.0.0.1") (at_host 1) (codes "peer ") 29875 refl

-- A packet is queued, the worker takes it, another is queued, and stop is called.
abbrev has_fd : ℕ → Bool
has_fd af = true

abbrev test_round : Heap → List SendData → List ZprnSdat → WorkerState → WorkerState
test_round = round_of has_fd true

abbrev idle : WorkerState
idle = record { zprn_confirmed = []; df = false; tos = 0; effects = [] }

abbrev to_peer : SendData
to_peer = record { buffer = packet6; dests = 2 ∷ []; frag = 0; tos = 0 }

abbrev new_threads : Threads
new_threads = record { queue = empty_queue; place = at_mutex; worker = idle; owes_notify = false }

-- The worker sleeps, is woken for a packet, takes it, and another one follows before the stop.
abbrev sleeping : Threads
sleeping = work test_round test_heap new_threads

abbrev queued : Threads
queued = record sleeping { queue = enqueue_data test_heap to_peer sleeping.queue }

abbrev alarmed : Threads
alarmed = record queued { place = woken queued.place }

abbrev taken : Threads
taken = work test_round test_heap alarmed

abbrev stopped : Threads
stopped = record taken { queue = stop (enqueue_data test_heap to_peer taken.queue) }

abbrev no_history : History
no_history = record { tasks_in = []; tasks_out = []; msgs_in = []; msgs_out = [] }

abbrev sent_once : History
sent_once = record no_history { tasks_in = let_in test_heap to_peer }

abbrev sent_twice : History
sent_twice = record sent_once { tasks_in = sent_once.tasks_in ++ let_in test_heap to_peer }

taken-Run : Run test_round idle sent_once taken
unfolding work wake enqueue_data woken
taken-Run = works test_heap (notify refl (send test_heap to_peer refl (works test_heap begin)))

stopped-Run : Run test_round idle sent_twice stopped
unfolding work wake enqueue_data woken
stopped-Run = notify refl (halt refl (notify refl (send test_heap to_peer refl taken-Run)))

Run-IsFifo_example : IsFifo test_round idle sent_twice stopped
Run-IsFifo_example = Run-IsFifo test_round idle sent_twice stopped stopped-Run

Run-IsAwaited_example : IsAwaited stopped
Run-IsAwaited_example = Run-IsAwaited test_round idle sent_twice stopped stopped-Run

stopped-not_ended : stopped.place ≢ ended
unfolding work enqueue_data wake woken
stopped-not_ended = ground arith

stopped-returned : stopped.owes_notify ≡ false
unfolding work wake enqueue_data woken
stopped-returned = refl

Run-finish_example :
    (stopped.place ≢ asleep)
    × (g : History) × Run test_round idle g (finish test_round test_heap stopped)
    × IsFinished test_round test_heap (finish test_round test_heap stopped)
    × (g.tasks_out ≡ sent_twice.tasks_in)
    × (g.msgs_out ≡ [])
Run-finish_example =
    Run-finish test_round test_heap idle sent_twice stopped stopped-Run refl stopped-returned
      stopped-not_ended
