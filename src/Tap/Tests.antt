-- ===== src/Tap/Tests.antt =====
-- The theorems on the tap interface at concrete frames and a concrete kernel.
use unikernel_with_region_in.Base.{
  ℕ, ◌≡◌, refl, inl, arith, Option, none, some, List, [], ◌∷◌, ◌++◌,
}
use unikernel_with_region_in.State.{Ptr, ok}
use unikernel_with_region_in.Region.{alloc}
use unikernel_with_region_in.Strings.{string_words}
use unikernel_with_region_in.Strings.Compare.{chars, text}
use unikernel_with_region_in.Strings.Convert.{converted}
use unikernel_with_region_in.Tap.{bytes, convert_packet, send_tap}
use unikernel_with_region_in.Tap.Bounds.{with_frame, sent_frame, convert_packet_lem, send_tap_lem}
use unikernel_with_region_in.Tap.Device.{
  Name, opens, creates, closes, opens_socket, gets_flags, sets_flags, Kernel, returns, exits,
  asked_name, tun_alloc, setup, open_tap,
}
use unikernel_with_region_in.Tap.Opening.{receives, attempts, opened, receives_lem}
use unikernel_with_region_in.Base.Int.{ℤ, pos, negsuc}
use unikernel_with_region_in.Example.{nothing, at, memory, allocated, no_block, alloc_two}

abbrev head : List ℕ
head = 1 ∷ 2 ∷ 3 ∷ 4 ∷ []

abbrev body : List ℕ
body = 97 ∷ 98 ∷ []

-- The memory with the frame at 1000, and after the block is taken.
abbrev framed : Ptr → ℕ
framed = (with_frame (memory nothing nothing) (head ++ body) 1000).byte

alloc_runs :
    alloc no_block 64 (string_words 2) (with_frame (memory nothing nothing) (head ++ body) 1000)
    ≡ ok 16368 (allocated nothing framed)
unfolding string_words
alloc_runs = alloc_two nothing framed

convert_packet_lem_example :
    let s = memory nothing nothing in
    let frame = with_frame s (head ++ body) 1000 in
    let after = converted frame (allocated nothing framed) 16368 2 1004 in
    (convert_packet no_block 64 1000 (bytes (head ++ body)) s ≡ ok 16368 after)
    × (text after 16368 ≡ body)
    × (frame.byte 1006 ≡ 0)
convert_packet_lem_example =
    convert_packet_lem no_block 64 1000 16368 head body (memory nothing nothing)
      (allocated nothing framed) (omega arith) (omega arith) (omega arith) (omega arith)
      (inl (omega arith)) alloc_runs

abbrev cells : Ptr → ℕ
cells = at 1000 97 (at 1008 1016 (at 1016 354 (at 1024 3 nothing)))

send_tap_lem_example :
    let s = memory cells nothing in
    let after = record s { byte = sent_frame s (97 ∷ 354 ∷ []) 5000 } in
    (send_tap 3 5000 1000 s ≡ ok 6 after)
    × (chars after.byte 2 5004 ≡ 97 ∷ 98 ∷ [])
    × (after.byte 1000 ≡ s.byte 1000)
send_tap_lem_example =
    send_tap_lem 3 5000 1000 (97 ∷ 354 ∷ []) [] (memory cells nothing) 1000 (omega arith)
      (omega arith) (omega arith) (inl refl)
      (refl, omega arith, refl, (refl, omega arith, refl, omega arith)) (inl (omega arith))

-- A kernel that opens descriptor 5, names the interface tap0, and has its flags set to 2.
abbrev kernel_of : ℤ → Option Name → Kernel
kernel_of fd dev = record {
  open_clone = fd;
  tun_set_iff = λ _ _. dev;
  socket = pos 6;
  get_flags = λ _ _. some 2;
  stale_flags = 0;
  cut_name = λ name. name;
  iff_tap = 2;
  iff_running = 4163;
}

abbrev tap0 : Name
tap0 = 116 ∷ 97 ∷ 112 ∷ 48 ∷ []

abbrev opening : Kernel
opening = kernel_of (pos 5) (some tap0)

abbrev failing : List Kernel
failing = kernel_of (negsuc 0) none ∷ kernel_of (negsuc 0) none ∷ []

receives_lem_example :
    (receives failing tap0 (negsuc 0) [] ≡ returns (negsuc 0) (attempts 2 []))
    × (receives (failing ++ (opening ∷ opening ∷ [])) tap0 (negsuc 0) []
        ≡ opened opening tap0 (attempts 2 []))
receives_lem_example = receives_lem failing opening (opening ∷ []) tap0 (refl, (refl, tt)) refl

-- Two calls of Receive that fail and two that do not: the interface is created in the third one, and
-- its flags are set from 2 to 4163.
four_calls :
    receives (failing ++ (opening ∷ opening ∷ [])) tap0 (negsuc 0) []
    ≡ returns (pos 5) (
        sets_flags (pos 6) tap0 4163
        ∷ gets_flags (pos 6) tap0
        ∷ opens_socket
        ∷ creates (pos 5) tap0 2
        ∷ opens
        ∷ opens
        ∷ opens
        ∷ [])
unfolding receives open_tap tun_alloc setup asked_name
four_calls = refl

not_created :
    receives (kernel_of (pos 5) none ∷ opening ∷ []) tap0 (negsuc 0) []
    ≡ exits 0 (closes (pos 5) ∷ creates (pos 5) tap0 2 ∷ opens ∷ [])
unfolding receives open_tap tun_alloc asked_name
not_created = refl
