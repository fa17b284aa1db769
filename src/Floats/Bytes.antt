-- ===== src/Floats/Bytes.antt =====
-- sml_real_to_bytes and sml_bytes_to_real of XenRuntimeMini/src/RuntimeMini/Math.c: the bytes of a
-- double in memory, the lowest first, as a string and back.
use unikernel_with_region_in.Base.{
  ℕ, zero, suc, ◌+◌, ◌*◌, ◌/◌, ◌%◌, ◌^◌, ◌<◌, ◌≡◌, ◌≢◌, refl, ap, sym, ◌∙◌, arith, inl, ==_of_ne,
  List, [], ◌∷◌, length,
}
use unikernel_with_region_in.State.{
  Ptr, null, State, Cmd, pure, ok, ◌>>=◌, ◌>>◌, Done, load, set_word, set_byte, upd,
  load_of_ne_null,
}
use unikernel_with_region_in.Region.{alloc}
use unikernel_with_region_in.Strings.{convert_bin_string_to_ml, data_of_string, string_words}
use unikernel_with_region_in.Strings.Compare.{chars, text}
use unikernel_with_region_in.Strings.Convert.{converted, convert_bin_string_to_ml_lem}
use unikernel_with_region_in.Strings.Copy.{put, Apart, chars-put, chars-put-Apart}

-- The loop that fills `v`.
unfoldable pub store_bytes : ℕ → ℕ → Ptr → Done
unfolding set_byte
store_bytes zero w v = pure tt
store_bytes (suc k) w v = do set_byte v (w % 256); store_bytes k (w / 256) (v + 1)

-- `v` is the buffer on the stack.
unfoldable pub sml_real_to_bytes : (ℕ → ℕ → Ptr) → Ptr → Ptr → Ptr → Cmd Ptr
unfolding set_byte
sml_real_to_bytes malloc r v f = do
  w ← load State.word f
  store_bytes 8 w v
  set_byte (v + 8) 0
  convert_bin_string_to_ml malloc r 8 v

-- `((double*)a)[0]`, of `k` bytes.
unfoldable pub load_bytes : ℕ → Ptr → Cmd ℕ
load_bytes zero a = pure 0
load_bytes (suc k) a = do b ← load State.byte a; n ← load_bytes k (a + 1); pure (b + 256 * n)

unfoldable pub sml_bytes_to_real : Ptr → Ptr → Cmd Ptr
unfolding set_word
sml_bytes_to_real d s = do r ← load_bytes 8 (data_of_string s); set_word d r; pure d

abbrev pub word_bytes : ℕ → ℕ → List ℕ
word_bytes zero w = []
word_bytes (suc k) w = w % 256 ∷ word_bytes k (w / 256)

-- The number whose bytes they are.
abbrev pub of_bytes : List ℕ → ℕ
of_bytes [] = 0
of_bytes (b ∷ bs) = b + 256 * of_bytes bs

length-word_bytes : (k w : ℕ) → length (word_bytes k w) ≡ k
length-word_bytes zero w = refl
length-word_bytes (suc k) w = ap suc (length-word_bytes k (w / 256))

of_bytes-word_bytes : (w : ℕ) → w < 2 ^ 64 → of_bytes (word_bytes 8 w) ≡ w
of_bytes-word_bytes w h = omega arith

store_bytes-put :
    (k w v : ℕ) (s : State)
    → v ≢ null
    → store_bytes k w v s ≡ ok tt (record s { byte = put (word_bytes k w) v s.byte })
unfolding store_bytes set_byte
store_bytes-put zero w v s ne = refl
store_bytes-put (suc k) w v s ne =
    rw (==_of_ne v null ne) (
      store_bytes-put k (w / 256) (v + 1) (record s { byte = upd s.byte v (w % 256) })
        (omega arith))

load_bytes-chars :
    (k : ℕ) (a : Ptr) (s : State) → a ≢ null → load_bytes k a s ≡ ok (of_bytes (chars s.byte k a)) s
unfolding load_bytes
load_bytes-chars zero a s ne = refl
load_bytes-chars (suc k) a s ne =
    rw (load_of_ne_null State.byte a s ne, load_bytes-chars k (a + 1) s (omega arith)) refl

-- What stands in the buffer once the 0 is behind it.
chars-word_bytes :
    (k w v : ℕ) (f : Ptr → ℕ)
    → chars (upd (put (word_bytes k w) v f) (v + k) 0) k v ≡ word_bytes k w
chars-word_bytes k w v f =
    chars-put-Apart k v (0 ∷ []) (v + k) (put (word_bytes k w) v f) (inl (omega arith))
    ∙ ap (λ n. chars (put (word_bytes k w) v f) n v) (sym (length-word_bytes k w))
    ∙ chars-put (word_bytes k w) v f

load_bytes_run :
    (a w : ℕ) (s : State)
    → a ≢ null
    → w < 2 ^ 64
    → chars s.byte 8 a ≡ word_bytes 8 w
    → load_bytes 8 a s ≡ ok w s
load_bytes_run a w s ne fits e =
    load_bytes-chars 8 a s ne
    ∙ ap (λ bs. ok (of_bytes bs) s) e
    ∙ ap (λ n. ok n s) (of_bytes-word_bytes w fits)

sml_bytes_to_real_run :
    (d str w : ℕ) (s : State)
    → d ≢ null
    → w < 2 ^ 64
    → chars s.byte 8 (str + 8) ≡ word_bytes 8 w
    → sml_bytes_to_real d str s ≡ ok d (record s { word = upd s.word d w })
unfolding sml_bytes_to_real set_word
sml_bytes_to_real_run d str w s ne fits e =
    rw (load_bytes_run (str + 8) w s (omega arith) fits e, ==_of_ne d null ne) refl

-- The memory with the bytes and a 0 in the buffer.
abbrev pub with_word : State → ℕ → Ptr → State
with_word s w v = record s { byte = upd (put (word_bytes 8 w) v s.byte) (v + 8) 0 }

-- For a double and a block from `alloc`, in the memory with the double in the buffer, that does not
-- meet the buffer: `sml_real_to_bytes` returns the block as a string of 8 characters, and
-- `sml_bytes_to_real` of it writes the same double again, bit by bit.
pub real_bytes_lem :
    (malloc : ℕ → ℕ → Ptr) (r v f d res : Ptr) (s s' : State)
    → f ≢ null
    → v ≢ null
    → d ≢ null
    → res ≢ null
    → s.word f < 2 ^ 64
    → Apart v 8 (res + 8) 9
    → alloc malloc r (string_words 8) (with_word s (s.word f) v) ≡ ok res s'
    → let after = converted (with_word s (s.word f) v) s' res 8 v in
      (sml_real_to_bytes malloc r v f s ≡ ok res after)
      × (length (text after res) ≡ 8)
      × (sml_bytes_to_real d res after ≡ ok d (record after { word = upd after.word d (s.word f) }))
unfolding sml_real_to_bytes set_byte
real_bytes_lem malloc r v f d res s s' nf nv nd nr fits apart run =
    let s1 = with_word s (s.word f) v in
    let after = converted s1 s' res 8 v in
    let done = convert_bin_string_to_ml_lem malloc r 8 v res s1 s' nv nr (omega arith) apart run in
    let stored = chars-word_bytes 8 (s.word f) v s.byte in
    (
      rw
          (
            load_of_ne_null State.word f s nf,
            store_bytes-put 8 (s.word f) v s nv,
            ==_of_ne (v + 8) null (omega arith),
          )
          done.0,
      ap length (done.1 ∙ stored) ∙ length-word_bytes 8 (s.word f),
      sml_bytes_to_real_run d res (s.word f) after nd fits (
          chars-put-Apart 8 (res + 8) (0 ∷ []) (res + 8 + 8)
            (put (chars s1.byte 8 v) (res + 8) s1.byte) (inl (omega arith))
          ∙ chars-put (chars s1.byte 8 v) (res + 8) s1.byte
          ∙ stored),
    )
