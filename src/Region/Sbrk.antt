-- ===== src/Region/Sbrk.antt =====
-- `callSbrk`: a chunk of memory becomes a free list of region pages.
use unikernel_with_region_in.Base.{
  ℕ, zero, suc, ◌+◌, ◌*◌, ◌%◌, ◌^◌, ◌<◌, ◌≤◌, ◌≡◌, ◌≢◌, refl, ◌∙◌, List, [], ◌∷◌, count,
  count-append, All, arith, ==_of_ne, ==_refl, lt→ltb, le→not_ltb, ap, subst, sym,
}
use unikernel_with_region_in.State.{Ptr, null, State, ok, upd, set_n, store_of_ne_null}
use unikernel_with_region_in.Region.{fragment, align_sb, link_chunk, call_sbrk}
use unikernel_with_region_in.Region.Chain.{IsChain, Distinct, ending, IsChain-append, IsChain-upd}
use unikernel_with_region_in.Region.Layout.{sizeof_rp, bytes_alloc_by_sbrk}
use unikernel_with_region_in.Region.Layout.Masks.{IsPage, is_rp_aligned-mod}

-- `k` pages one behind the other.
unfoldable pub chunk : ℕ → Ptr → List Ptr
chunk zero b = []
chunk (suc k) b = b ∷ chunk k (b + sizeof_rp)

-- The links of the first `k` of these pages.
links : (Ptr → Ptr) → ℕ → Ptr → Ptr → Ptr
links n zero np = n
links n (suc k) np = links (upd n np (np + sizeof_rp)) k (np + sizeof_rp)

pub count-chunk_below : (x k b : ℕ) → x < b → count x (chunk k b) ≡ 0
unfolding chunk
count-chunk_below x zero b h = refl
count-chunk_below x (suc k) b h = ground (arith, count-chunk_below x k (b + sizeof_rp))

pub count-chunk_above : (x k b : ℕ) → b + sizeof_rp * k ≤ x → count x (chunk k b) ≡ 0
unfolding chunk
count-chunk_above x zero b h = refl
count-chunk_above x (suc k) b h = ground (arith, count-chunk_above x k (b + sizeof_rp))

pub chunk-Distinct : (k b : ℕ) → Distinct (chunk k b)
unfolding chunk
chunk-Distinct zero b x = omega arith
chunk-Distinct (suc k) b x =
    ground (arith, chunk-Distinct k (b + sizeof_rp) x, count-chunk_below x k (b + sizeof_rp))

pub chunk-IsPage :
    (k b : ℕ) → b % sizeof_rp ≡ 0 → b ≢ 0 → b + sizeof_rp * k < 2 ^ 64 → All IsPage (chunk k b)
unfolding chunk
chunk-IsPage zero b m ne h = tt
chunk-IsPage (suc k) b m ne h =
    (omega arith, chunk-IsPage k (b + sizeof_rp) (omega arith) (omega arith) (omega arith))

pub chunk-suc : (k b : ℕ) → chunk (suc k) b ≡ b ∷ chunk k (b + sizeof_rp)
unfolding chunk
chunk-suc k b = refl

pub chunk-ending : (k b : ℕ) → chunk (suc k) b ≡ ending (chunk k b) (b + sizeof_rp * k)
unfolding chunk
chunk-ending zero b = ap (λ t. t ∷ []) (omega arith)
chunk-ending (suc k) b =
    ap (λ t. b ∷ t)
      (chunk-ending k (b + sizeof_rp) ∙ ap (ending (chunk k (b + sizeof_rp))) (omega arith))

links-outside : (n : Ptr → Ptr) (k np x : ℕ) → count x (chunk k np) ≡ 0 → links n k np x ≡ n x
unfolding links chunk
links-outside n zero np x out = refl
links-outside n (suc k) np x out =
    links-outside (upd n np (np + sizeof_rp)) k (np + sizeof_rp) x (ground arith)
    ∙ rw (==_of_ne x np (ground arith))

links-IsChain :
    (n : Ptr → Ptr) (k np : ℕ)
    → np ≢ null
    → IsChain (links n k np) np (chunk k np) (np + sizeof_rp * k)
unfolding links chunk
links-IsChain n zero np ne = omega arith
links-IsChain n (suc k) np ne = (
  refl,
  ne,
  rw
      (
        links-outside (upd n np (np + sizeof_rp)) k (np + sizeof_rp) np
            (count-chunk_below np k (np + sizeof_rp) (omega arith)),
        ==_refl np,
      )
      (subst (IsChain (links n (suc k) np) (np + sizeof_rp) (chunk k (np + sizeof_rp)))
        (omega arith) (links-IsChain (upd n np (np + sizeof_rp)) k (np + sizeof_rp) (omega arith))),
)

fragment_stop :
    (k : ℕ) (np : Ptr) (s : State)
    → s.global_freelist + bytes_alloc_by_sbrk ≤ np + sizeof_rp
    → fragment (suc k) np s ≡ ok np s
unfolding fragment
fragment_stop k np s h = rw (le→not_ltb _ _ h)

fragment_go :
    (k : ℕ) (np : Ptr) (s : State)
    → np ≢ null
    → np + sizeof_rp < s.global_freelist + bytes_alloc_by_sbrk
    → fragment (suc k) np s
      ≡ fragment k
          (np + sizeof_rp)
          (record s { rp_n = upd s.rp_n np (np + sizeof_rp); rp_total = s.rp_total + 1 })
unfolding fragment
fragment_go k np s ne h = rw (lt→ltb _ _ h, store_of_ne_null np _ s ne)

-- The loop links `m` pages when the chunk ends behind page `m`.
fragment_lem :
    (m : ℕ) (np : Ptr) (s : State)
    → np ≢ null
    → np + sizeof_rp * suc m ≡ s.global_freelist + bytes_alloc_by_sbrk
    → fragment (suc m) np s
      ≡ ok (np + sizeof_rp * m) (record s { rp_n = links s.rp_n m np; rp_total = s.rp_total + m })
unfolding links
fragment_lem zero np s ne h = ground (arith, fragment_stop 0 np s)
fragment_lem (suc m) np s ne h = ground (
  arith,
  fragment_go (suc m) np s ne,
  fragment_lem m (np + sizeof_rp)
      (record s { rp_n = upd s.rp_n np (np + sizeof_rp); rp_total = s.rp_total + 1 }),
)

-- The first `k + 1` pages of a chunk, linked, with `t` behind them.
pub linked : (Ptr → Ptr) → ℕ → Ptr → Ptr → Ptr → Ptr
linked n k b t = upd (links n k b) (b + sizeof_rp * k) t

linked-IsChain :
    (n : Ptr → Ptr) (k b t : ℕ) → b ≢ null → IsChain (linked n k b t) b (chunk (suc k) b) t
unfolding linked
linked-IsChain n k b t ne =
    subst (λ ps. IsChain (linked n k b t) b ps t) (sym (chunk-ending k b))
      (IsChain-append (linked n k b t) b (chunk k b) (b + sizeof_rp * k) _ t
        (IsChain-upd (links n k b) (b + sizeof_rp * k) t b (chunk k b) (b + sizeof_rp * k)
          (count-chunk_above (b + sizeof_rp * k) k b (omega arith)) (links-IsChain n k b ne))
        (refl, omega arith, rw (==_refl (b + sizeof_rp * k))))

linked-outside :
    (n : Ptr → Ptr) (k b t x : ℕ) → count x (chunk (suc k) b) ≡ 0 → linked n k b t x ≡ n x
unfolding linked
linked-outside n k b t x out = ground (
  arith,
  ap (count x) (chunk-ending k b),
  count-append x (chunk k b) ((b + sizeof_rp * k) ∷ []),
  links-outside n k b x,
)

-- The memory when `callSbrk` has put a chunk at `b` in front of the free list.
unfoldable pub grown : State → Ptr → State
grown s b = record s {
  rp_n = linked s.rp_n 99 b s.global_freelist;
  global_freelist = b;
  rp_total = s.rp_total + 100;
}

link_chunk_lem :
    (b : Ptr) (s : State) → b ≢ null → b % sizeof_rp ≡ 0 → link_chunk b s ≡ ok tt (grown s b)
unfolding link_chunk grown linked set_n
link_chunk_lem b s ne aligned =
    rw
      (
        is_rp_aligned-mod b,
        aligned,
        fragment_lem 99 b (record s { global_freelist = b; rp_total = s.rp_total + 1 }) ne refl,
        store_of_ne_null (b + sizeof_rp * 99) _ _ (omega arith),
      )
      (ground arith)

-- The pages of the chunk are in front of the free list, and no other link has changed.
pub grown-IsChain :
    (s : State) (b : Ptr)
    → b ≢ null
    → IsChain (grown s b).rp_n (grown s b).global_freelist (chunk 100 b) s.global_freelist
unfolding grown
grown-IsChain s b ne = linked-IsChain s.rp_n 99 b s.global_freelist ne

pub grown-outside :
    (s : State) (b x : Ptr) → count x (chunk 100 b) ≡ 0 → (grown s b).rp_n x ≡ s.rp_n x
unfolding grown
grown-outside s b x out = linked-outside s.rp_n 99 b s.global_freelist x out

pub align_sb_lem :
    (sb : Ptr) → (align_sb sb % sizeof_rp ≡ 0) × (sb ≤ align_sb sb) × (align_sb sb < sb + sizeof_rp)
unfolding align_sb
align_sb_lem sb = ground arith

-- What `callSbrk` asks `malloc` for.
abbrev pub sbrk_request : ℕ
sbrk_request = bytes_alloc_by_sbrk + sizeof_rp + sizeof_rp

module _ (malloc : ℕ → ℕ → Ptr) (s : State) where
  pub call_sbrk-null :
      malloc s.mallocs sbrk_request ≡ null
      → call_sbrk malloc s ≡ ok tt (record s { mallocs = s.mallocs + 1 })
  unfolding call_sbrk
  call_sbrk-null h = rw h

  pub call_sbrk_chunk :
      (sb : Ptr)
      → malloc s.mallocs sbrk_request ≡ sb
      → sb ≢ null
      → call_sbrk malloc s ≡ ok tt (grown (record s { mallocs = s.mallocs + 1 }) (align_sb sb))
  unfolding call_sbrk
  call_sbrk_chunk sb h ne =
      rw (h, ==_of_ne sb null ne)
        (link_chunk_lem (align_sb sb) (record s { mallocs = s.mallocs + 1 })
          (omega (arith, align_sb_lem sb)) (align_sb_lem sb).0)
