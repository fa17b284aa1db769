-- ===== src/Region/Programs/Ready.antt =====
-- The memories that a program starts from and leaves, and an allocation in them.
use unikernel_with_region_in.Base.{
  ℕ, ◌+◌, ◌<◌, ◌≤◌, ◌≡◌, ◌≢◌, inl, inr, refl, ap, List, [], ◌∷◌, ◌++◌, ◌%◌, length, All, arith,
  ==_of_ne,
}
use unikernel_with_region_in.State.{Ptr, State, ok}
use unikernel_with_region_in.Region.{alloc}
use unikernel_with_region_in.Region.Alloc.Total.{alloc_small}
use unikernel_with_region_in.Region.Dealloc.{popped, popped-Inv}
use unikernel_with_region_in.Region.Layout.{clear_status_bits, allocatable_words_in_region_page}
use unikernel_with_region_in.Region.Alloc.{ne-addr_left, ne-addr_right}
use unikernel_with_region_in.Region.Reset.Keeps.{emptied, reset_state}
use unikernel_with_region_in.Region.Refill.{Delivers}
use unikernel_with_region_in.Region.Supply.{Spends, Spends-length}
use unikernel_with_region_in.Region.View.{Desc, pages, all_addrs, Inv, IsStack-frame}
use unikernel_with_region_in.Region.Programs.Live.{
  Block, Disjoint, IsLive, IsHoused, IsHoused-frame, All-map, without, without-All, without-IsApart,
  split, in_left, in_right,
}
use unikernel_with_region_in.Region.Programs.Placing.{new-Disjoint, new-IsHoused, kept-IsHoused}

-- `k` is fuel for the large objects of a region.
abbrev pub IsFueled : ℕ → Desc → Type 0
IsFueled k d = length d.large < k

-- What every program starts from, and what it leaves.
pub record IsReady (k : ℕ) (s : State) (fl : List Ptr) (ds : List Desc) (bs : List Block)
    : Type 0 where
  pub inv : Inv s fl ds
  pub live : IsLive s ds bs
  pub fuel : All (IsFueled k) ds
  pub some_fuel : 0 < k

-- An allocation of `n` words in the region `d`: the new object, the memory, the free pages and the
-- region after it.
pub record NewObject (malloc : ℕ → ℕ → Ptr) (k : ℕ) (s : State) (fl : List Ptr) (bs : List Block)
    (xs : List Desc) (d : Desc) (ys : List Desc) (r₀ : Ptr) (n : ℕ) : Type 0 where
  pub block : Block
  pub state : State
  pub free : List Ptr
  pub it : Desc
  pub returns : alloc malloc r₀ n s ≡ ok block.start state
  pub ready : IsReady k state free (xs ++ it ∷ ys) (block ∷ bs)
  pub spends : Spends malloc s fl (xs ++ d ∷ ys) state free (xs ++ it ∷ ys)
  pub same_addr : it.addr ≡ d.addr
  pub shape : (block.region ≡ d.addr) × (block.words ≡ n)
  pub aligned : block.start % 8 ≡ 0
  pub kept :
      (b : Block)
      → IsHoused s (xs ++ d ∷ ys) b
      → Disjoint block b × IsHoused state (xs ++ it ∷ ys) b

pub All-middle :
    (P : Desc → Type 0) (xs : List Desc) (d : Desc) (ys : List Desc) → All P (xs ++ d ∷ ys) → P d
All-middle P [] d ys h = h.0
All-middle P (x ∷ xs) d ys h = All-middle P xs d ys h.1

pub All-replace :
    (P : Desc → Type 0) (xs : List Desc) (d d' : Desc) (ys : List Desc)
    → (P d → P d')
    → All P (xs ++ d ∷ ys)
    → All P (xs ++ d' ∷ ys)
All-replace P [] d d' ys f h = (f h.0, h.1)
All-replace P (x ∷ xs) d d' ys f h = (h.0, All-replace P xs d d' ys f h.1)

pub addrs-replace :
    (xs : List Desc) (d d' : Desc) (ys : List Desc)
    → d'.addr ≡ d.addr
    → all_addrs (xs ++ d' ∷ ys) ≡ all_addrs (xs ++ d ∷ ys)
addrs-replace [] d d' ys e = ap (λ a. a ∷ all_addrs ys) e
addrs-replace (x ∷ xs) d d' ys e = ap (λ rs. x.addr ∷ rs) (addrs-replace xs d d' ys e)

-- What is left when a region is reset, and when the top region is popped.
pub reset-IsHoused :
    (s : State) (fl : List Ptr) (xs : List Desc) (d : Desc) (ys : List Desc)
    → Inv s fl (xs ++ d ∷ ys)
    → (b : Block) → b.region ≢ d.addr
    → IsHoused s (xs ++ d ∷ ys) b
    → IsHoused (reset_state s d) (xs ++ emptied d ∷ ys) b
reset-IsHoused s fl xs d ys inv b ne h = elim (split s xs d ys b h) [
  | inl left ↦ in_left (reset_state s d) xs (emptied d ∷ ys) b (
      IsHoused-frame s (reset_state s d) xs b
        (λ x n. rw (==_of_ne x d.addr (ne-addr_left s fl xs d ys inv x n)) refl) left)
  | inr (inl (p, here)) ↦ absurd (ne here.region)
  | inr (inr right) ↦ in_right (reset_state s d) xs (emptied d ∷ ys) b (
      inr (
        IsHoused-frame s (reset_state s d) ys b
          (λ x n. rw (==_of_ne x d.addr (ne-addr_right s fl xs d ys inv x n)) refl) right))
]

popped-IsHoused :
    (s : State) (d : Desc) (ds : List Desc) (b : Block)
    → b.region ≢ d.addr
    → IsHoused s (d ∷ ds) b
    → IsHoused (popped s d) ds b
popped-IsHoused s d ds b ne (inl (p, here)) = absurd (ne here.region)
popped-IsHoused s d ds b ne (inr h) = IsHoused-frame s (popped s d) ds b (λ x n. refl) h

pub popped-IsReady :
    (k : ℕ) (s : State) (fl : List Ptr) (bs : List Block) (d : Desc) (ds : List Desc)
    → IsReady k s fl (d ∷ ds) bs
    → IsReady k (popped s d) (pages d ++ fl) ds (without d.addr bs)
popped-IsReady k s fl bs d ds h = record {
  inv = popped-Inv s fl d ds h.inv;
  live = record {
    housed = without-All d.addr bs (popped-IsHoused s d ds) h.live.housed;
    apart = without-IsApart d.addr bs h.live.apart;
  };
  fuel = h.fuel.1;
  some_fuel = h.some_fuel;
}

-- What a program writes into its objects is nothing to the allocator.
pub IsReady-objects :
    (k : ℕ) (s : State) (fl : List Ptr) (ds : List Desc) (bs : List Block) (w b : Ptr → ℕ)
    → IsReady k s fl ds bs
    → IsReady k (record s { word = w; byte = b }) fl ds bs
IsReady-objects k s fl ds bs w b h =
    let s' : State = record s { word = w; byte = b } in
    record {
      inv = record {
        free = h.inv.free;
        stack =
            IsStack-frame s.topregion ds
              (record {
                rp_n = λ x n. refl;
                rp_gen = λ x n. refl;
                gen_a = λ x n. refl;
                gen_fp = λ x n. refl;
                ro_p = λ x n. refl;
                ro_lobjs = λ x n. refl;
                lobj_next = λ x n. refl;
              })
              h.inv.stack;
        pages = h.inv.pages;
        distinct = h.inv.distinct;
        regions = h.inv.regions;
        large = h.inv.large;
      };
      live = record {
        housed = All-map bs (λ c g. IsHoused-frame s s' ds c (λ x n. refl) g) h.live.housed;
        apart = h.live.apart;
      };
      fuel = h.fuel;
      some_fuel = h.some_fuel;
    }

module _ (malloc : ℕ → ℕ → Ptr) (k : ℕ) (s : State) (fl : List Ptr) (bs : List Block) where
  -- There is a free page.
  pub page_at_hand : (ds : List Desc) → 0 < length fl → fl ≡ [] → Delivers malloc s ds
  page_at_hand ds free none = absurd (ground (arith, none, free))

  pub spent :
      (xs : List Desc) (d : Desc) (ys : List Desc) (r₀ : Ptr) (n : ℕ)
      (new : NewObject malloc k s fl bs xs d ys r₀ n)
      → length fl ≤ 1 + length new.free
  spent xs d ys r₀ n new = omega (
    arith,
    Spends-length malloc s fl (xs ++ d ∷ ys) new.state new.free (xs ++ new.it ∷ ys) new.spends,
  )

  -- An allocation in a region of the stack: the block is one of the program's objects then.
  pub alloc-IsReady :
      (xs : List Desc) (d : Desc) (ys : List Desc) (r₀ : Ptr) (n : ℕ)
      → IsReady k s fl (xs ++ d ∷ ys) bs
      → clear_status_bits r₀ ≡ d.addr
      → n ≤ allocatable_words_in_region_page
      → (fl ≡ [] → Delivers malloc s (xs ++ d ∷ ys))
      → NewObject malloc k s fl bs xs d ys r₀ n
  alloc-IsReady xs d ys r₀ n h region small deliver =
      let (t, s', fl', d', e, inv', spends, place) =
        alloc_small malloc r₀ n s xs d ys region small fl h.inv deliver in
      let apart = new-Disjoint s s' fl fl' xs d d' ys t n h.inv inv' place in
      let kept = kept-IsHoused s s' fl fl' xs d d' ys t n h.inv inv' place in
      record {
        block = record { region = d.addr; start = t; words = n };
        state = s';
        free = fl';
        it = d';
        returns = e;
        ready = record {
          inv = inv';
          live = record {
            housed = (
              new-IsHoused s s' fl fl' xs d d' ys t n h.inv inv' place,
              All-map bs kept h.live.housed,
            );
            apart = (All-map bs apart h.live.housed, h.live.apart);
          };
          fuel = All-replace (IsFueled k) xs d d' ys (rw place.same_region.1 (λ f. f)) h.fuel;
          some_fuel = h.some_fuel;
        };
        spends = spends;
        same_addr = place.same_region.0;
        shape = (refl, refl);
        aligned = place.word_aligned;
        kept = λ b g. (apart b g, kept b g);
      }
