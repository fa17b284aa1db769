-- ===== src/Tap/Bounds.antt =====
-- What Receive and Send on the tap interface do at the end of their buffers.
use unikernel_with_region_in.Base.{
  ℕ, zero, suc, ◌+◌, ◌%◌, ◌^◌, ◌<◌, ◌≤◌, ◌≡◌, ◌≢◌, ◌⊎◌, refl, ap, ap₂, sym, ◌∙◌, arith, leb,
  ==_of_ne, ==_refl, List, [], ◌∷◌, ◌++◌, length, length-append, inl, inr, true, false,
}
use unikernel_with_region_in.Base.Int.{pos, ◌-ℤ◌}
use unikernel_with_region_in.State.{Ptr, null, State, ok, upd, set_byte, load_of_ne_null}
use unikernel_with_region_in.Region.{alloc}
use unikernel_with_region_in.Strings.{string_words, alloc_string_c, convert_bin_string_to_ml}
use unikernel_with_region_in.Strings.Compare.{chars, text}
use unikernel_with_region_in.Strings.Copy.{put, Apart, put-outside, chars-put, chars-put-Apart}
use unikernel_with_region_in.Strings.Convert.{converted, convert_bin_string_to_ml_lem}
use unikernel_with_region_in.CharLists.Cells.{IsList, is_cons-cell, is_cons-end}
use unikernel_with_region_in.CharLists.Implode.{low_bytes, length-low_bytes}
use unikernel_with_region_in.Netif.{my_convert_string_to_ml}
use unikernel_with_region_in.Netif.Sending.{with_bytes}
use unikernel_with_region_in.Tap.{
  mtu, bytes, put_bytes, convert_packet, clear_buffer, fill_frame, send_tap,
}

put_bytes-put :
    (cs : List ℕ) (p : Ptr) (s : State) → p ≢ null → put_bytes cs p s ≡ ok tt (with_bytes s cs p)
unfolding put_bytes set_byte
put_bytes-put [] p s ne = refl
put_bytes-put (c ∷ cs) p s ne =
    rw (==_of_ne p null ne)
      (put_bytes-put cs (p + 1) (record s { byte = upd s.byte p c }) (omega arith))

put-append :
    (cs ds : List ℕ) (q : Ptr) (f : Ptr → ℕ)
    → put (cs ++ ds) q f ≡ put ds (q + length cs) (put cs q f)
put-append [] ds q f = ap (λ p. put ds p f) (omega arith)
put-append (c ∷ cs) ds q f =
    put-append cs ds (q + 1) (upd f q c)
    ∙ ap (λ p. put ds p (put cs (q + 1) (upd f q c))) (omega arith)

less_four : (n m : ℕ) → n ≡ 4 + m → pos n -ℤ pos 4 ≡ pos m
less_four n m h = ground arith

-- What stands behind the first four bytes of a frame.
chars-frame :
    (cs ds : List ℕ) (q : Ptr) (f : Ptr → ℕ)
    → length cs ≡ 4
    → chars (upd (put (cs ++ ds) q f) (q + length (cs ++ ds)) 0) (length ds) (q + 4) ≡ ds
chars-frame cs ds q f four =
    chars-put-Apart (length ds) (q + 4) (0 ∷ []) (q + length (cs ++ ds)) (put (cs ++ ds) q f)
      (inl (omega (arith, length-append cs ds, four)))
    ∙ ap₂ (λ g p. chars g (length ds) p) (put-append cs ds q f) (omega (arith, four))
    ∙ chars-put ds (q + length cs) (put cs q f)

-- The memory with a frame and the 0 behind it in the buffer.
abbrev pub with_frame : State → List ℕ → Ptr → State
with_frame s cs buf = record s { byte = upd (put cs buf s.byte) (buf + length cs) 0 }

-- Receive on a frame of four bytes or more, and a block from `alloc`, in the memory with the frame,
-- that does not meet the buffer: it returns a string of the bytes behind the first four. The byte
-- behind the frame is set to 0, which for a frame of MTU bytes is the one behind the buffer.
pub convert_packet_lem :
    (malloc : ℕ → ℕ → Ptr) (r buf res : Ptr) (cs ds : List ℕ) (s s' : State)
    → buf ≢ null
    → res ≢ null
    → length cs ≡ 4
    → length ds < 2 ^ 58
    → Apart (buf + 4) (length ds) (res + 8) (length ds + 1)
    → alloc malloc r (string_words (length ds)) (with_frame s (cs ++ ds) buf) ≡ ok res s'
    → let frame = with_frame s (cs ++ ds) buf in
      let after = converted frame s' res (length ds) (buf + 4) in
      (convert_packet malloc r buf (bytes (cs ++ ds)) s ≡ ok res after)
      × (text after res ≡ ds)
      × (frame.byte (buf + length (cs ++ ds)) ≡ 0)
unfolding convert_packet set_byte my_convert_string_to_ml convert_bin_string_to_ml alloc_string_c
convert_packet_lem malloc r buf res cs ds s s' nb nr four fits apart run =
    let frame = with_frame s (cs ++ ds) buf in
    let size : length (cs ++ ds) ≡ 4 + length ds = omega (arith, length-append cs ds, four) in
    let done =
      convert_bin_string_to_ml_lem malloc r (length ds) (buf + 4) res frame s' (omega arith) nr fits
        apart run in
    (
      rw
          (
            put_bytes-put (cs ++ ds) buf s nb,
            ==_of_ne (buf + length (cs ++ ds)) null (omega arith),
            less_four (length (cs ++ ds)) (length ds) size,
          )
          done.0,
      done.1 ∙ chars-frame cs ds buf s.byte four,
      rw (==_refl (buf + length (cs ++ ds))) refl,
    )

unfoldable pub zeros : ℕ → List ℕ
zeros zero = []
zeros (suc k) = 0 ∷ zeros k

length-zeros : (k : ℕ) → length (zeros k) ≡ k
unfolding zeros
length-zeros zero = refl
length-zeros (suc k) = ap suc (length-zeros k)

clear_buffer-put :
    (k : ℕ) (p : Ptr) (s : State) → p ≢ null → clear_buffer k p s ≡ ok tt (with_bytes s (zeros k) p)
unfolding clear_buffer set_byte zeros
clear_buffer-put zero p s ne = refl
clear_buffer-put (suc k) p s ne =
    rw (==_of_ne p null ne)
      (clear_buffer-put k (p + 1) (record s { byte = upd s.byte p 0 }) (omega arith))

beyond : (i : ℕ) → i ≡ mtu + 1 → leb i mtu ≡ false
beyond i h = ground arith

within : (i : ℕ) → i ≤ mtu → leb i mtu ≡ true
within i h = ground arith

-- The loop takes `ys` and stops there, at the end of the list or behind index MTU.
fill_frame-put :
    (k : ℕ) (p buf i : ℕ) (ys zs : List ℕ) (s : State)
    → length ys < k
    → buf ≢ null
    → i + length ys ≤ mtu + 1
    → (length zs ≡ 0) ⊎ (i + length ys ≡ mtu + 1)
    → IsList s.word p (ys ++ zs)
    → fill_frame k p buf i s ≡ ok (i + length ys) (with_bytes s (low_bytes ys) (buf + i))
unfolding fill_frame set_byte
fill_frame-put zero p buf i ys zs s h nb fits stops l = absurd (omega arith)
fill_frame-put (suc k) p buf i [] [] s h nb fits stops l =
    rw (is_cons-end p l) (ap (λ n. ok n s) (omega arith))
fill_frame-put (suc k) p buf i [] (z ∷ zs) s h nb fits stops l =
    rw (is_cons-cell p l.0, beyond i (ground arith)) (ap (λ n. ok n s) (omega arith))
fill_frame-put (suc k) p buf i (y ∷ ys) zs s h nb fits stops l =
    let s1 = record s { byte = upd s.byte (buf + i) (y % 256) } in
    rw
      (
        is_cons-cell p l.0,
        within i (omega arith),
        load_of_ne_null State.word p s l.1,
        l.2,
        ==_of_ne (buf + i) null (omega arith),
        load_of_ne_null State.word (p + 8) s1 (omega arith),
      )
      (fill_frame-put k (s.word (p + 8)) buf (i + 1) ys zs s1 (omega arith) nb (omega arith)
          (ground arith) l.3
        ∙ ap₂ (λ n q. ok n (with_bytes s1 (low_bytes ys) q)) (omega arith) (omega arith))

-- The buffer before the type of the frame is copied, and after.
abbrev pub filled_frame : State → List ℕ → Ptr → Ptr → ℕ
filled_frame s ys buf = put (low_bytes ys) (buf + 4) (put (zeros mtu) buf s.byte)

abbrev pub sent_frame : State → List ℕ → Ptr → Ptr → ℕ
sent_frame s ys buf =
    let f = filled_frame s ys buf in
    let g = upd f (buf + 2) (f (buf + 13)) in upd g (buf + 3) (g (buf + 14))

-- Send with the elements `ys` of a list, and `zs` behind them which it leaves out: it stops at the end
-- of the list or after 1515 elements, and hands over four bytes more than it took elements. The low
-- bytes of `ys` stand from index 4 on. So 1515 elements fill index 1518, one behind the buffer; no
-- other byte outside of the buffer changes.
pub send_tap_lem :
    (k : ℕ) (buf xs : Ptr) (ys zs : List ℕ) (s : State) (x : Ptr)
    → length ys < k
    → buf ≢ null
    → 4 + length ys ≤ mtu + 1
    → (length zs ≡ 0) ⊎ (4 + length ys ≡ mtu + 1)
    → IsList s.word xs (ys ++ zs)
    → (x < buf) ⊎ (buf + mtu < x)
    → let after = record s { byte = sent_frame s ys buf } in
      (send_tap k buf xs s ≡ ok (4 + length ys) after)
      × (chars after.byte (length ys) (buf + 4) ≡ low_bytes ys)
      × (after.byte x ≡ s.byte x)
unfolding send_tap set_byte
send_tap_lem k buf xs ys zs s x fuel nb fits stops l out =
    let s1 = with_bytes s (zeros mtu) buf in
    let s2 = with_bytes s1 (low_bytes ys) (buf + 4) in
    let filled = filled_frame s ys buf in
    let typed = upd filled (buf + 2) (filled (buf + 13)) in
    (
      rw
          (
            clear_buffer-put mtu buf s nb,
            fill_frame-put k xs buf 4 ys zs s1 fuel nb fits stops l,
            load_of_ne_null State.byte (buf + 13) s2 (omega arith),
            ==_of_ne (buf + 2) null (omega arith),
          )
          (rw
            (
              load_of_ne_null State.byte (buf + 14)
                  (record s2 { byte = upd s2.byte (buf + 2) (s2.byte (buf + 13)) }) (omega arith),
              ==_of_ne (buf + 3) null (omega arith),
            )
            refl),
      chars-put-Apart (length ys) (buf + 4) (typed (buf + 14) ∷ []) (buf + 3) typed
            (inr (omega arith))
          ∙ chars-put-Apart (length ys) (buf + 4) (filled (buf + 13) ∷ []) (buf + 2) filled
              (inr (omega arith))
          ∙ ap (λ n. chars filled n (buf + 4)) (sym (length-low_bytes ys))
          ∙ chars-put (low_bytes ys) (buf + 4) s1.byte,
      rw (==_of_ne x (buf + 3) (ground arith), ==_of_ne x (buf + 2) (ground arith))
          (put-outside (low_bytes ys) (buf + 4) x s1.byte (ground (arith, length-low_bytes ys))
            ∙ put-outside (zeros mtu) buf x s.byte (ground (arith, length-zeros mtu))),
    )
