-- ===== src/Netif.antt =====
-- The network interface on mini-os, Libs/netiflib/netif-miniOS.c: the packets that netif_rx, which the
-- network driver calls, puts in a ring and Receive takes out, and Send. The driver and the semaphore
-- are those of mini-os; what is handed to netfront_xmit is the result of Send here.
pub mod Queue
pub mod Receive
pub mod Sending
pub mod Threads
mod Tests
use unikernel_with_region_in.Base.{
  ℕ, zero, suc, ◌+◌, ◌-◌, ◌%◌, ◌^◌, Option, none, some, if◌then◌else◌,
}
use unikernel_with_region_in.Base.Int.{ℤ, pos, negsuc}
use unikernel_with_region_in.State.{Ptr, State, Run, Cmd, pure, out_of_fuel, ◌>>=◌, ◌>>◌, set_byte}
use unikernel_with_region_in.Strings.{data_of_string, alloc_string_c, copy}
use unikernel_with_region_in.CharLists.{is_cons, hd, tl}
use Queue.{Packet, Ring, take}

-- An `int` as a `size_t`.
abbrev pub size_of_int : ℤ → ℕ
size_of_int (pos n) = n
size_of_int (negsuc n) = 2 ^ 64 - 1 - n

-- How often the loop with `len > 0` runs.
abbrev pub rounds : ℤ → ℕ
rounds (pos n) = n
rounds (negsuc n) = 0

-- `my_convertStringToML`, and `toMLString` of netif-tuntap.c.
unfoldable pub my_convert_string_to_ml : (ℕ → ℕ → Ptr) → Ptr → Ptr → ℤ → Cmd Ptr
my_convert_string_to_ml malloc r c_str len = do
  res ← alloc_string_c malloc r (size_of_int len)
  copy (rounds len) c_str (data_of_string res)
  set_byte (data_of_string res + rounds len) 0
  pure res

-- Receive waits in a loop while the ring is empty.
pub data Outcome : Type 0 where
  waiting : Outcome
  received : Run Ptr → Ring → Outcome

unfoldable pub receive : (ℕ → ℕ → Ptr) → Ptr → Ring → State → Outcome
receive malloc r q s = elim (take q) [
  | none ↦ waiting
  | some (p, q') ↦ received (my_convert_string_to_ml malloc r p.start p.len s) q'
]

-- The loop of Send, which counts in `i`.
unfoldable pub fill_buffer : ℕ → Ptr → Ptr → ℕ → Cmd ℕ
fill_buffer zero ys buf i = λ _. out_of_fuel
fill_buffer (suc k) ys buf i =
    if is_cons ys
    then (do c ← hd ys; set_byte (buf + i) (c % 256); ys' ← tl ys; fill_buffer k ys' buf (i + 1))
    else pure i

-- Send, with its buffer at `buf`: the number of bytes that are transmitted from there.
unfoldable pub send : ℕ → Ptr → Ptr → Cmd ℕ
send fuel buf byte_list = fill_buffer fuel byte_list buf 0

-- `unsigned char toWrite_buf[1518]`.
abbrev pub send_buffer_size : ℕ
send_buffer_size = 1518
