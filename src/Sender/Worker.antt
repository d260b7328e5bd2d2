-- ===== src/Sender/Worker.antt =====
-- sender_t::worker_fn: one round of its loop, over the effects that it has on the sockets.
use zprd.Prelude.{
  ℕ, ◌+◌, ◌/◌, ◌%◌, ◌^◌, List, [], ◌∷◌, ◌++◌, Bool, false, ◌&&◌, any_of, remove_if, is_empty,
  length, leb, ltb, bool_eq, ◌==◌, if◌then◌else◌,
}
use zprd.Oafa.{SockAddr}
use zprd.Ip.{ip_v, ip_size, set_sum, ip_cksum}
use zprd.Peer.{Ptr, null, Heap, is_local}
use zprd.Zprn.{ZprnV2, entry_bytes, get_needed_size, zprn_hdrv}
use zprd.Sender.{SendData, ZprnSdat}

-- System calls and error messages, in order.
pub data Effect : Type 0 where
  write_tun : List ℕ → Effect
  send_to : Bool → SockAddr → List ℕ → Effect
  set_df_option : Bool → Effect
  set_tos_option : ℕ → Effect
  dest_is_local dest_family_unknown : Effect

-- What the round keeps in the variables of worker_fn.
pub record WorkerState : Type 0 where
  pub zprn_confirmed : List Ptr
  pub df : Bool
  pub tos : ℕ
  pub effects : List Effect

abbrev pub emit : Effect → WorkerState → WorkerState
emit e w = record w { effects = w.effects ++ (e ∷ []) }

-- `dat.frag & htons(IP_DF)`: bit 6 of the word in memory.
abbrev pub frag_df : ℕ → Bool
frag_df frag = frag / 2 ^ 6 % 2 == 1

-- The packet as it is written to the tun device, its IPv4 checksum set.
unfoldable pub tun_packet : List ℕ → List ℕ
tun_packet buf =
    if leb ip_size (length buf) && ip_v buf == 4 then set_sum (ip_cksum buf) buf else buf

-- The packets for one destination, the last one in the slot that worker_fn goes on filling: a new
-- one is begun if there is none, or if the entry would make the last one longer than 1232 bytes.
unfoldable pub add_entry : ZprnV2 → List (List ℕ) → List (List ℕ)
add_entry z [] = (zprn_hdrv ++ entry_bytes z) ∷ []
add_entry z (p ∷ []) =
    if ltb 1232 (length p + get_needed_size z)
    then p ∷ (zprn_hdrv ++ entry_bytes z) ∷ []
    else (p ++ entry_bytes z) ∷ []
add_entry z (p ∷ q ∷ ps) = p ∷ add_entry z (q ∷ ps)

-- zprn_buf, a map from destinations to packets.
abbrev pub ZprnBuf : Type 0
ZprnBuf = List (Ptr × List (List ℕ))

unfoldable pub buffer_of : Ptr → ZprnBuf → List (List ℕ)
buffer_of dest [] = []
buffer_of dest ((d, ps) ∷ buf) = if d == dest then ps else buffer_of dest buf

-- `zprn_buf[dest]`, changed by `add_entry`.
unfoldable pub put_entry : ZprnV2 → Ptr → ZprnBuf → ZprnBuf
put_entry z dest [] = (dest, add_entry z []) ∷ []
put_entry z dest ((d, ps) ∷ buf) =
    if d == dest then (d, add_entry z ps) ∷ buf else (d, ps) ∷ put_entry z dest buf

unfoldable pub put_dests : ZprnV2 → List Ptr → ZprnBuf → ZprnBuf
put_dests z [] buf = buf
put_dests z (dest ∷ dests) buf = put_dests z dests (put_entry z dest buf)

unfoldable pub build_buf : List ZprnSdat → ZprnBuf → ZprnBuf
build_buf [] buf = buf
build_buf (i ∷ msgs) buf = build_buf msgs (put_dests i.zprn i.dests buf)

-- The peers whose messages are confirmed.
unfoldable pub confirm_all : List ZprnSdat → List Ptr → List Ptr
confirm_all [] cs = cs
confirm_all (i ∷ msgs) cs = confirm_all msgs (if i.confirmed == null then cs else i.confirmed ∷ cs)

-- `has_fd` says for which families `my_server_fds` has a socket, `df_ok` whether the setsockopt
-- call of set_df succeeds. Failing calls of the others only write a message.
module _ (heap : Heap) (has_fd : ℕ → Bool) (df_ok : Bool) where
  unfoldable pub sendto_peer : Ptr → List ℕ → WorkerState → WorkerState
  sendto_peer i buf w =
      let is_confirmed = any_of (λ c. c == i) w.zprn_confirmed in
      let w' = record w { zprn_confirmed = remove_if (λ c. c == i) w.zprn_confirmed } in
      if is_local (heap i)
      then emit dest_is_local w'
      else (if has_fd (heap i).saddr.family
          then emit (send_to is_confirmed (heap i).saddr buf) w'
          else emit dest_family_unknown w')

  unfoldable pub set_df : Bool → WorkerState → WorkerState
  set_df cdf w = let w' = emit (set_df_option cdf) w in if df_ok then record w' { df = cdf } else w'

  unfoldable pub set_tos : ℕ → WorkerState → WorkerState
  set_tos ctos w = record (emit (set_tos_option ctos) w) { tos = ctos }

  unfoldable pub send_all : List Ptr → List ℕ → WorkerState → WorkerState
  send_all [] buf w = w
  send_all (i ∷ dests) buf w = send_all dests buf (sendto_peer i buf w)

  unfoldable pub send_task : SendData → WorkerState → WorkerState
  send_task dat w =
      if is_empty dat.dests
      then emit (write_tun (tun_packet dat.buffer)) w
      else (let w1 = if w.tos == dat.tos then w else set_tos dat.tos w in
          let cdf = frag_df dat.frag in
          let w2 = if bool_eq w1.df cdf then w1 else set_df cdf w1 in
          send_all dat.dests dat.buffer w2)

  unfoldable pub send_tasks : List SendData → WorkerState → WorkerState
  send_tasks [] w = w
  send_tasks (dat ∷ tasks) w = send_tasks tasks (send_task dat w)

  unfoldable pub send_packets : Ptr → List (List ℕ) → WorkerState → WorkerState
  send_packets dest [] w = w
  send_packets dest (pkt ∷ pkts) w = send_packets dest pkts (sendto_peer dest pkt w)

  unfoldable pub send_buf : ZprnBuf → WorkerState → WorkerState
  send_buf [] w = w
  send_buf ((dest, pkts) ∷ buf) w = send_buf buf (send_packets dest pkts w)

  -- One message goes out alone, several are joined to packets for each destination.
  unfoldable pub send_zprn : List ZprnSdat → WorkerState → WorkerState
  send_zprn [] w = w
  send_zprn (i ∷ []) w =
      send_all i.dests (zprn_hdrv ++ entry_bytes i.zprn)
        (record w { zprn_confirmed = confirm_all (i ∷ []) w.zprn_confirmed })
  send_zprn (i ∷ j ∷ msgs) w =
      send_buf (build_buf (i ∷ j ∷ msgs) [])
        (record w { zprn_confirmed = confirm_all (i ∷ j ∷ msgs) w.zprn_confirmed })

  -- The body of `while(true)` behind the lock.
  unfoldable pub worker_round : List SendData → List ZprnSdat → WorkerState → WorkerState
  worker_round tasks zprn_msgs w =
      let w1 = send_tasks tasks w in
      if is_empty zprn_msgs
      then w1
      else (let w2 = if w1.df then set_df false w1 else w1 in
          let w3 = if w2.tos == 0 then w2 else set_tos 0 w2 in send_zprn zprn_msgs w3)
