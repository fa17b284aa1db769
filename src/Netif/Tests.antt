-- ===== src/Netif/Tests.antt =====
-- The theorems on the mini-os network interface at concrete packets and lists.
use unikernel_with_region_in.Base.{
  ℕ, zero, suc, ◌+◌, ◌*◌, ◌%◌, ◌<◌, ◌≡◌, refl, ap, subst, inl, inr, arith, List, [], ◌∷◌, ◌++◌,
  length, length-append, ◌==◌, if◌then◌else◌,
}
use unikernel_with_region_in.Base.Int.{pos}
use unikernel_with_region_in.State.{Ptr, ok}
use unikernel_with_region_in.Region.{alloc}
use unikernel_with_region_in.Strings.{string_words}
use unikernel_with_region_in.Strings.Compare.{chars, text}
use unikernel_with_region_in.Strings.Convert.{converted}
use unikernel_with_region_in.CharLists.Cells.{IsList}
use unikernel_with_region_in.CharLists.Implode.{low_bytes}
use unikernel_with_region_in.Netif.{received, receive, send}
use unikernel_with_region_in.Netif.Queue.{Packet, Ring, initial}
use unikernel_with_region_in.Netif.Receive.{
  arrives, reads, received_from, expected_from, netif_lem, pending,
}
use unikernel_with_region_in.Netif.Sending.{with_bytes, send_lem, send_overruns, receive_lem}
use unikernel_with_region_in.Netif.Threads.{
  System, Step, IsReached, at_start, after, init, ups, downs, gives, ended, in_main,
}
use unikernel_with_region_in.Netif.Threads.StartUp.{threads_lem, ComesToSend, start_up_lem}
use unikernel_with_region_in.Netif.Threads.{started}
use unikernel_with_region_in.Example.{nothing, at, line, memory, allocated, no_block, alloc_two}

abbrev packet : Ptr → Packet
packet p = record { start = p; len = pos 2 }

abbrev no_packets : ℕ → Packet
no_packets i = packet 0

netif_lem_example :
    received_from
      (arrives (packet 1000) ∷ arrives (packet 2000) ∷ reads ∷ reads ∷ reads ∷ [])
      (initial no_packets)
    ≡ packet 1000 ∷ packet 2000 ∷ []
unfolding expected_from
netif_lem_example =
    netif_lem no_packets
      (arrives (packet 1000) ∷ arrives (packet 2000) ∷ reads ∷ reads ∷ reads ∷ [])

-- The packet at 1000 waits.
abbrev ring : Ring
ring = record { slots = λ i. packet 1000; write_pos = 2; read_pos = 0 }

abbrev frame : Ptr → ℕ
frame = line 1000 (97 ∷ 98 ∷ []) nothing

alloc_runs :
    alloc no_block 64 (string_words 2) (memory nothing frame) ≡ ok 16368 (allocated nothing frame)
unfolding string_words
alloc_runs = alloc_two nothing frame

receive_lem_example :
    let s = memory nothing frame in
    let after = converted s (allocated nothing frame) 16368 2 1000 in
    (q' : Ring) × (receive no_block 64 ring s ≡ received (ok 16368 after) q')
    × (text after 16368 ≡ 97 ∷ 98 ∷ [])
    × (pending ring ≡ packet 1000 ∷ pending q')
receive_lem_example =
    receive_lem no_block 64 ring 1000 2 16368 (memory nothing frame) (allocated nothing frame)
      (record { write_in = omega arith; read_in = omega arith }) (omega arith) refl (omega arith)
      (omega arith) (omega arith) (inl (omega arith)) alloc_runs

abbrev cells : Ptr → ℕ
cells = at 1000 97 (at 1008 1016 (at 1016 354 (at 1024 3 nothing)))

send_two :
    let s = memory cells nothing in
    let after = with_bytes s (97 ∷ 98 ∷ []) 5000 in
    (send 3 5000 1000 s ≡ ok 2 after)
    × (chars after.byte 2 5000 ≡ 97 ∷ 98 ∷ [])
    × (after.byte 5002 ≡ s.byte 5002)
send_two =
    send_lem 3 5000 1000 (97 ∷ 354 ∷ []) (memory cells nothing) 5002 (omega arith) (omega arith)
      (refl, omega arith, refl, (refl, omega arith, refl, omega arith)) (inr (omega arith))

-- A list of 1519 sevens, in cells one behind the other that end at 32000.
abbrev long_cells : Ptr → ℕ
long_cells q = if q == 31992 then 3 else if q % 16 == 0 then 7 else q + 8

unfoldable sevens : ℕ → List ℕ
sevens zero = []
sevens (suc k) = 7 ∷ sevens k

length-sevens : (k : ℕ) → length (sevens k) ≡ k
unfolding sevens
length-sevens zero = refl
length-sevens (suc k) = ap suc (length-sevens k)

sevens-IsList : (k p : ℕ) → p + 16 * k ≡ 31984 → 0 < p → IsList long_cells p (sevens k ++ (7 ∷ []))
unfolding sevens
sevens-IsList zero p e h = (omega arith, omega arith, ground arith, ground arith)
sevens-IsList (suc k) p e h = (
  omega arith,
  omega arith,
  ground arith,
  subst (λ q. IsList long_cells q (sevens k ++ (7 ∷ []))) {x = p + 16} (ground arith)
      (sevens-IsList k (p + 16) (omega arith) (omega arith)),
)

long_length : length (sevens 1518 ++ (7 ∷ [])) < 1520
long_length = omega (arith, length-append (sevens 1518) (7 ∷ []), length-sevens 1518)

one_too_many :
    let s = memory long_cells nothing in
    let after = with_bytes s (low_bytes (sevens 1518 ++ (7 ∷ []))) 40000 in
    (send 1520 40000 7696 s ≡ ok (length (sevens 1518 ++ (7 ∷ []))) after) × (after.byte 41518 ≡ 7)
one_too_many =
    send_overruns 1520 40000 7696 (sevens 1518) 7 [] (memory long_cells nothing)
      (length-sevens 1518) long_length (omega arith)
      (sevens-IsList 1518 7696 (omega arith) (omega arith))

-- The program in main, with the device at 512.
abbrev running : System
running = record { net_dev = 512; net_sem = 1; netfront = ended; sml = in_main }

running-IsReached : IsReached 512 4 running
running-IsReached =
    after (after (after (after at_start (init refl)) (ups refl)) (downs {n = 0} refl refl))
      (gives refl)

threads_lem_example : (running.net_dev ≡ 512) × ((t : System) × Step 512 running t)
threads_lem_example = threads_lem 512 4 running running-IsReached

start_up_lem_example : ComesToSend 512 5 started
start_up_lem_example = start_up_lem 512 0 started at_start
