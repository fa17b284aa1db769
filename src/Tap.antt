-- ===== src/Tap.antt =====
-- The network interface on Unix, Receive and Send of Libs/netiflib/netif-tuntap.c. The system calls
-- are not part of the repository: what tun_alloc and read return is a parameter, and what is handed to
-- write is the result of Send here.
pub mod Bounds
pub mod Device
pub mod Opening
mod Tests
use unikernel_with_region_in.Base.{
  ℕ, zero, suc, ◌+◌, ◌-◌, ◌%◌, ◌^◌, Bool, ◌&&◌, ◌==◌, leb, List, [], ◌∷◌, if◌then◌else◌, length,
}
use unikernel_with_region_in.Base.Int.{ℤ, pos, negsuc, ◌-ℤ◌, eqb_ℤ}
use unikernel_with_region_in.State.{
  Ptr, null, State, Cmd, pure, out_of_fuel, ◌>>=◌, ◌>>◌, Done, load, set_byte,
}
use unikernel_with_region_in.CharLists.{is_cons, hd, tl}
use unikernel_with_region_in.Netif.{my_convert_string_to_ml}

-- MTU
abbrev pub mtu : ℕ
mtu = 1518

-- What read(tapfd, buf, MTU) returns: the bytes that it put into the buffer, or -1.
pub data Input : Type 0 where
  bytes : List ℕ → Input
  error : Input

unfoldable pub put_bytes : List ℕ → Ptr → Done
unfolding set_byte
put_bytes [] p = pure tt
put_bytes (c ∷ cs) p = do set_byte p c; put_bytes cs (p + 1)

-- Receive behind the call of read: the 0 behind the bytes, and the string without the first four.
-- `buf[bytesRead]` with -1 stands before the buffer.
unfoldable pub convert_packet : (ℕ → ℕ → Ptr) → Ptr → Ptr → Input → Cmd Ptr
convert_packet malloc r buf (bytes cs) = do
  put_bytes cs buf
  set_byte (buf + length cs) 0
  my_convert_string_to_ml malloc r (buf + 4) (pos (length cs) -ℤ pos 4)
convert_packet malloc r buf error = do
  set_byte (buf - 1) 0
  my_convert_string_to_ml malloc r (buf + 4) (negsuc 0 -ℤ pos 4)

-- Receive: the tap interface is opened on the first call. The result is `tapfd` and the string.
unfoldable pub receive_tap :
    (ℕ → ℕ → Ptr) → (tun_alloc : ℤ) → Input → (tapfd : ℤ) → Ptr → Ptr → Cmd (ℤ × Ptr)
receive_tap malloc tun_alloc input tapfd r buf =
    let fd = if eqb_ℤ tapfd (negsuc 0) then tun_alloc else tapfd in
    if eqb_ℤ fd (negsuc 0)
    then pure (fd, null)
    else (do res ← convert_packet malloc r buf input; pure (fd, res))

-- `char toWrite_buf[MTU] = {0}`.
unfoldable pub clear_buffer : ℕ → Ptr → Done
unfolding set_byte
clear_buffer zero p = pure tt
clear_buffer (suc k) p = do set_byte p 0; clear_buffer k (p + 1)

-- The loop of Send, which stops at `i <= MTU`.
unfoldable pub fill_frame : ℕ → Ptr → Ptr → ℕ → Cmd ℕ
unfolding set_byte
fill_frame zero ys buf i = λ _. out_of_fuel
fill_frame (suc k) ys buf i =
    if is_cons ys && leb i mtu
    then (do c ← hd ys; set_byte (buf + i) (c % 256); ys' ← tl ys; fill_frame k ys' buf (i + 1))
    else pure i

-- Send, with its buffer at `buf`: the number of bytes that are written to the interface from there.
unfoldable pub send_tap : ℕ → Ptr → Ptr → Cmd ℕ
unfolding set_byte
send_tap fuel buf byte_list = do
  clear_buffer mtu buf
  i ← fill_frame fuel byte_list buf 4
  high ← load State.byte (buf + 13)
  set_byte (buf + 2) high
  low ← load State.byte (buf + 14)
  set_byte (buf + 3) low
  pure i
