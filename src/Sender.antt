-- ===== src/Sender.antt =====
-- src/sender.hpp and sender.cxx: the queue between the main thread and the sender thread. Each
-- function is a critical section of the mutex; the worker is in the child Worker.
pub mod Worker
pub mod Queue
pub mod Batch
pub mod Threads
use zprd.Prelude.{
  ℕ, List, [], ◌∷◌, ◌++◌, Bool, true, false, ◌||◌, ◌&&◌, not, Option, none, some, remove_if,
  is_empty, ◌==◌, if◌then◌else◌,
}
use zprd.Peer.{Ptr, null, Heap, is_local}
use zprd.Zprn.{ZprnV2}

-- send_data
pub record SendData : Type 0 where
  pub buffer : List ℕ
  pub dests : List Ptr
  pub frag : ℕ
  pub tos : ℕ

-- zprn2_sdat
pub record ZprnSdat : Type 0 where
  pub zprn : ZprnV2
  pub dests : List Ptr
  pub confirmed : Ptr

-- The move constructor of zprn2_sdat takes `zprn` and `dests`; `confirmed` is left null.
unfoldable pub move_zprn : ZprnSdat → ZprnSdat
move_zprn o = record { zprn = o.zprn; dests = o.dests; confirmed = null }

-- The members that the mutex guards.
pub record SenderQueue : Type 0 where
  pub tasks : List SendData
  pub zprn_msgs : List ZprnSdat
  pub stop : Bool

abbrev pub empty_queue : SenderQueue
empty_queue = record { tasks = []; zprn_msgs = []; stop = false }

abbrev pub front_is_local : Heap → List Ptr → Bool
front_is_local heap [] = false
front_is_local heap (d ∷ ds) = is_local (heap d)

-- enqueue(send_data)
unfoldable pub enqueue_data : Heap → SendData → SenderQueue → SenderQueue
enqueue_data heap dat q =
    if is_empty dat.dests
    then q
    else (let sane = if front_is_local heap dat.dests then record dat { dests = [] } else dat in
        record q { tasks = q.tasks ++ (sane ∷ []) })

-- enqueue(zprn2_sdat): `emplace_back(move(dat))` calls the move constructor.
unfoldable pub enqueue_zprn : Heap → ZprnSdat → SenderQueue → SenderQueue
enqueue_zprn heap dat q =
    let dests = remove_if (λ x. x == null || is_local (heap x)) dat.dests in
    if is_empty dests
    then q
    else record q { zprn_msgs = q.zprn_msgs ++ (move_zprn (record dat { dests = dests }) ∷ []) }

abbrev pub start : SenderQueue → SenderQueue
start q = record q { stop = false }

abbrev pub stop : SenderQueue → SenderQueue
stop q = record q { stop = true }

-- What the worker does when it holds the lock.
pub data Wake : Type 0 where
  waits : Wake
  returns : Wake
  takes : List SendData → List ZprnSdat → SenderQueue → Wake

-- `_cond.wait`, the test behind it, and the two moves out of the queue.
unfoldable pub wake : SenderQueue → Wake
wake q =
    if is_empty q.tasks && is_empty q.zprn_msgs
    then (if q.stop then returns else waits)
    else takes q.tasks q.zprn_msgs (record q { tasks = []; zprn_msgs = [] })
