-- ===== src/Netif/Sending.antt =====
-- What Send writes into its buffer, and what Receive makes of a packet.
use unikernel_with_region_in.Base.{
  ℕ, zero, suc, ◌+◌, ◌%◌, ◌^◌, ◌<◌, ◌≤◌, ◌≡◌, ◌≢◌, ◌⊎◌, refl, ap, ap₂, sym, ◌∙◌, arith, ==_of_ne,
  ==_refl, List, [], ◌∷◌, ◌++◌, length, inl,
}
use unikernel_with_region_in.Base.Int.{pos}
use unikernel_with_region_in.State.{Ptr, null, State, ok, upd, set_byte, load_of_ne_null}
use unikernel_with_region_in.Region.{alloc}
use unikernel_with_region_in.Strings.{string_words, alloc_string_c, convert_bin_string_to_ml}
use unikernel_with_region_in.Strings.Compare.{chars, text}
use unikernel_with_region_in.Strings.Copy.{put, Apart, put-outside, chars-put}
use unikernel_with_region_in.Strings.Convert.{converted, convert_bin_string_to_ml_lem}
use unikernel_with_region_in.CharLists.Cells.{IsList, is_cons-cell, is_cons-end}
use unikernel_with_region_in.CharLists.Implode.{low_bytes, length-low_bytes}
use unikernel_with_region_in.Netif.{
  my_convert_string_to_ml, received, receive, fill_buffer, send, send_buffer_size,
}
use unikernel_with_region_in.Netif.Queue.{Ring, queue_size}
use unikernel_with_region_in.Netif.Receive.{IsValid, how_many, pending, take-first}

abbrev pub with_bytes : State → List ℕ → Ptr → State
with_bytes s cs q = record s { byte = put cs q s.byte }

fill_buffer-put :
    (k : ℕ) (p buf i : ℕ) (xs : List ℕ) (s : State)
    → length xs < k
    → buf ≢ null
    → IsList s.word p xs
    → fill_buffer k p buf i s ≡ ok (i + length xs) (with_bytes s (low_bytes xs) (buf + i))
unfolding fill_buffer set_byte
fill_buffer-put zero p buf i xs s h nb l = absurd (omega arith)
fill_buffer-put (suc k) p buf i [] s h nb l = rw (is_cons-end p l) (ap (λ n. ok n s) (omega arith))
fill_buffer-put (suc k) p buf i (x ∷ xs) s h nb l =
    let s1 = record s { byte = upd s.byte (buf + i) (x % 256) } in
    rw
      (
        is_cons-cell p l.0,
        load_of_ne_null State.word p s l.1,
        l.2,
        ==_of_ne (buf + i) null (omega arith),
        load_of_ne_null State.word (p + 8) s1 (omega arith),
      )
      (fill_buffer-put k (s.word (p + 8)) buf (i + 1) xs s1 (omega arith) nb l.3
        ∙ ap₂ (λ n q. ok n (with_bytes s1 (low_bytes xs) q)) (omega arith) (omega arith))

-- With fuel for each cell and the end, Send hands over as many bytes as the list has elements, which
-- are the low bytes of the elements in order, and changes no other byte; that the bytes fit the buffer
-- is not checked.
pub send_lem :
    (k : ℕ) (buf xs : Ptr) (cs : List ℕ) (s : State) (x : Ptr)
    → length cs < k
    → buf ≢ null
    → IsList s.word xs cs
    → (x < buf) ⊎ (buf + length cs ≤ x)
    → let after = with_bytes s (low_bytes cs) buf in
      (send k buf xs s ≡ ok (length cs) after)
      × (chars after.byte (length cs) buf ≡ low_bytes cs)
      × (after.byte x ≡ s.byte x)
unfolding send
send_lem k buf xs cs s x fuel nb l out = (
  fill_buffer-put k xs buf 0 cs s fuel nb l
      ∙ ap₂ (λ n q. ok n (with_bytes s (low_bytes cs) q)) (omega arith) (omega arith),
  ap (λ n. chars (put (low_bytes cs) buf s.byte) n buf) (sym (length-low_bytes cs))
      ∙ chars-put (low_bytes cs) buf s.byte,
  put-outside (low_bytes cs) buf x s.byte (ground (arith, length-low_bytes cs)),
)

put-at :
    (ys : List ℕ) (c : ℕ) (zs : List ℕ) (q : Ptr) (f : Ptr → ℕ)
    → put (low_bytes (ys ++ (c ∷ zs))) q f (q + length ys) ≡ c % 256
put-at [] c zs q f =
    ap (put (low_bytes zs) (q + 1) (upd f q (c % 256))) {y = q} (omega arith)
    ∙ put-outside (low_bytes zs) (q + 1) q (upd f q (c % 256)) (inl (omega arith))
    ∙ rw (==_refl q) refl
put-at (y ∷ ys) c zs q f =
    ap (put (low_bytes (ys ++ (c ∷ zs))) (q + 1) (upd f q (y % 256))) {y = q + 1 + length ys}
      (omega arith)
    ∙ put-at ys c zs (q + 1) (upd f q (y % 256))

-- A list that is longer than the buffer: Send writes its element number 1518 behind the buffer, and
-- hands over more bytes than the buffer has.
pub send_overruns :
    (k : ℕ) (buf xs : Ptr) (ys : List ℕ) (c : ℕ) (zs : List ℕ) (s : State)
    → length ys ≡ send_buffer_size
    → length (ys ++ (c ∷ zs)) < k
    → buf ≢ null
    → IsList s.word xs (ys ++ (c ∷ zs))
    → let after = with_bytes s (low_bytes (ys ++ (c ∷ zs))) buf in
      (send k buf xs s ≡ ok (length (ys ++ (c ∷ zs))) after)
      × (after.byte (buf + send_buffer_size) ≡ c % 256)
unfolding send
send_overruns k buf xs ys c zs s full fuel nb l = (
  fill_buffer-put k xs buf 0 (ys ++ (c ∷ zs)) s fuel nb l
      ∙ ap₂ (λ n q. ok n (with_bytes s (low_bytes (ys ++ (c ∷ zs))) q)) (omega arith) (omega arith),
  ap (put (low_bytes (ys ++ (c ∷ zs))) buf s.byte) {y = buf + length ys} (omega (arith, full))
      ∙ put-at ys c zs buf s.byte,
)

-- Receive on a ring where a packet of `n` bytes, fewer than 2^58, waits first, with a block from
-- `alloc` that does not meet it: it ends and returns a string of just these bytes, and the other
-- packets wait on in their order.
pub receive_lem :
    (malloc : ℕ → ℕ → Ptr) (r : Ptr) (q : Ring) (start : Ptr) (n : ℕ) (res : Ptr) (s s' : State)
    → IsValid q
    → 0 < how_many q
    → q.slots ((q.read_pos + 1) % queue_size) ≡ record { start = start; len = pos n }
    → start ≢ null
    → res ≢ null
    → n < 2 ^ 58
    → Apart start n (res + 8) (n + 1)
    → alloc malloc r (string_words n) s ≡ ok res s'
    → let after = converted s s' res n start in
      (q' : Ring) × (receive malloc r q s ≡ received (ok res after) q')
      × (text after res ≡ chars s.byte n start)
      × (pending q ≡ record { start = start; len = pos n } ∷ pending q')
unfolding receive my_convert_string_to_ml alloc_string_c convert_bin_string_to_ml
receive_lem malloc r q start n res s s' v some_left slot ns nr fits apart run =
    let (q', e, v', l) = take-first q v some_left in
    let done = convert_bin_string_to_ml_lem malloc r n start res s s' ns nr fits apart run in
    (
      q',
      rw (e, slot, receive) (ap (λ m. received m q') done.0),
      done.1,
      l ∙ ap (λ p. p ∷ pending q') slot,
    )
