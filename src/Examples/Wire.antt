-- ===== src/Examples/Wire.antt =====
-- The wire formats, checksums and the sender at concrete inputs.
use zprd.Prelude.{
  ℕ, ◌*◌, ◌+◌, ◌/◌, ◌%◌, ◌<◌, ◌≡◌, refl, arith, List, [], ◌∷◌, ◌++◌, All, false, Option, some, none,
  length, is_empty,
}
use zprd.Cksum.{in_cksum}
use zprd.Cksum.Laws.{in_cksum_odd, IsByte, word_sum, in_cksum_lem}
use zprd.Ip.{set_sum, ip_cksum}
use zprd.Ip.Checksum.{ip_cksum-set_sum}
use zprd.Zprn.{ZprnV2, handle_zprn_pkt, zprn_hdrv, zprn_routemod, zprn2_probe}
use zprd.Zprn.RoundTrip.{IsWire, body_bytes, handle_all, handle_zprn_pkt-body_bytes}
use zprd.Sender.{ZprnSdat, empty_queue, enqueue_zprn}
use zprd.Sender.Queue.{IsClean, enqueue_zprn-IsClean}
use zprd.Sender.Worker.{buffer_of, build_buf}
use zprd.Sender.Batch.{Packs, addressed, build_buf-Packs}
use zprd.Config.{Settings, defaults, read_config, apply_lines, apply_line, apply_stmt}
use zprd.Config.Laws.{Collected, read_config_lem}
use zprd.Iafa.{of_ip4}
use zprd.Examples.{inner, test_heap}

-- An IPv4 header without its checksum, from 10.0.0.1 to 192.168.0.7.
abbrev header : List ℕ
header =
    0x45 ∷ 0 ∷ 0 ∷ 28 ∷ 0 ∷ 1 ∷ 0x40 ∷ 0 ∷ 64 ∷ 17 ∷ 0xab ∷ 0xcd ∷ 10 ∷ 0 ∷ 0 ∷ 1 ∷ 192 ∷ 168 ∷ 0
    ∷ 7 ∷ []

header-IsByte : All IsByte header
header-IsByte = omega arith

ip_cksum-set_sum_example : ip_cksum (set_sum (ip_cksum (set_sum 0 header)) (set_sum 0 header)) ≡ 0
ip_cksum-set_sum_example = ip_cksum-set_sum header header-IsByte

in_cksum_lem_example :
    (in_cksum header 20 < 65536) × ((in_cksum header 20 + word_sum (20 / 2) header) % 65535 ≡ 0)
in_cksum_lem_example = in_cksum_lem header 20 header-IsByte (omega arith)

in_cksum_odd_example : in_cksum header (2 * 4 + 1) ≡ in_cksum header (2 * 4)
in_cksum_odd_example = in_cksum_odd header 4

abbrev route_msg : ZprnV2
route_msg = record { cmd = zprn_routemod; prio = 3; route = inner 7 }

abbrev probe : ZprnV2
probe = record { cmd = zprn2_probe; prio = 0xff; route = inner 9 }

messages-IsWire : All IsWire (route_msg ∷ probe ∷ [])
unfolding of_ip4
messages-IsWire = (
  record { type_fits = omega arith; addr_whole = refl },
  (record { type_fits = omega arith; addr_whole = refl }, tt),
)

-- The handler that collects the messages.
abbrev collect : ZprnV2 → List ZprnV2 → List ZprnV2
collect z zs = zs ++ (z ∷ [])

handle_zprn_pkt-body_bytes_example :
    handle_zprn_pkt collect
      ((zprn_hdrv ++ body_bytes (route_msg ∷ probe ∷ [])) ++ (0xff ∷ 0xff ∷ []))
      (length (zprn_hdrv ++ body_bytes (route_msg ∷ probe ∷ [])))
      []
    ≡ some (handle_all collect (route_msg ∷ probe ∷ []) [])
handle_zprn_pkt-body_bytes_example =
    handle_zprn_pkt-body_bytes collect route_msg (probe ∷ []) (0xff ∷ 0xff ∷ []) [] messages-IsWire

abbrev queued : List ZprnSdat
queued =
    record { zprn = route_msg; dests = 1 ∷ 2 ∷ []; confirmed = 0 }
    ∷ record { zprn = probe; dests = 2 ∷ []; confirmed = 0 }
    ∷ []

build_buf-Packs_example : Packs (buffer_of 2 (build_buf queued [])) (addressed 2 queued)
build_buf-Packs_example = build_buf-Packs 2 queued

-- A message for a peer, the tun device and a null pointer, whose sender wants peer 1 confirmed.
abbrev to_confirm : ZprnSdat
to_confirm = record { zprn = route_msg; dests = 2 ∷ 9 ∷ 0 ∷ []; confirmed = 1 }

enqueue_zprn-IsClean_example :
    All (IsClean test_heap) (enqueue_zprn test_heap to_confirm empty_queue).zprn_msgs
enqueue_zprn-IsClean_example = enqueue_zprn-IsClean test_heap to_confirm empty_queue tt

-- A configuration with an interface and two remotes, and the settings that it gives.
abbrev file : List (List ℕ)
file = (b'I' ∷ b't' ∷ []) ∷ (b'#' ∷ b'R' ∷ []) ∷ (b'R' ∷ b'a' ∷ []) ∷ (b'R' ∷ b'b' ∷ []) ∷ []

abbrev no_numbers : List ℕ → Option ℕ
no_numbers text = none

abbrev expected : Settings
expected = record defaults { iface = b't' ∷ []; remotes = (b'a' ∷ []) ∷ (b'b' ∷ []) ∷ [] }

file-read : read_config no_numbers file ≡ some expected
unfolding read_config apply_lines apply_line apply_stmt
file-read = refl

read_config_lem_example : Collected file defaults expected × (is_empty expected.iface ≡ false)
read_config_lem_example = read_config_lem no_numbers file expected file-read

abbrev host_and_port : List ℕ
host_and_port = b'h' ∷ b'|' ∷ b'8' ∷ b'0' ∷ []
