-- ===== src/Table/Init.antt =====
-- What `word_table_init` leaves in memory.
use unikernel_with_region_in.Base.{
  ℕ, zero, suc, ◌+◌, ◌*◌, ◌/◌, ◌%◌, ◌^◌, ◌<◌, ◌≤◌, ◌≡◌, ◌≢◌, ◌⊎◌, inl, inr, refl, ap, ap₂, ◌∙◌,
  List, [], ◌∷◌, arith, ==_of_ne, ==_refl,
}
use native.Mathlib.Nat.{mod-eq_of_lt}
use unikernel_with_region_in.Base.Bits.{bit_or_step, bit_or-zero}
use unikernel_with_region_in.State.{Ptr, null, State, ok, upd, set_word}
use unikernel_with_region_in.Region.{alloc}
use unikernel_with_region_in.Region.Frame.{alloc-keeps}
use unikernel_with_region_in.Table.{val_tag_table, fill, word_table_init}

-- `k` words `x` from `p` on, and `f` elsewhere.
unfoldable pub filled : ℕ → Ptr → ℕ → (Ptr → ℕ) → Ptr → ℕ
filled zero p x f = f
filled (suc k) p x f = filled k (p + 8) x (upd f p x)

filled-outside :
    (k : ℕ) (p x : ℕ) (f : Ptr → ℕ) (q : Ptr) → (q < p) ⊎ (p + 8 * k ≤ q) → filled k p x f q ≡ f q
unfolding filled
filled-outside zero p x f q h = refl
filled-outside (suc k) p x f q h = elim h [
  | inl b ↦
      filled-outside k (p + 8) x (upd f p x) q (inl (omega arith))
      ∙ rw (==_of_ne q p (omega arith)) refl
  | inr b ↦
      filled-outside k (p + 8) x (upd f p x) q (inr (omega arith))
      ∙ rw (==_of_ne q p (omega arith)) refl
]

filled-inside : (k : ℕ) (p x : ℕ) (f : Ptr → ℕ) (i : ℕ) → i < k → filled k p x f (p + 8 * i) ≡ x
unfolding filled
filled-inside zero p x f i h = absurd (omega arith)
filled-inside (suc k) p x f zero h =
    ap (filled k (p + 8) x (upd f p x)) {y = p} (omega arith)
    ∙ filled-outside k (p + 8) x (upd f p x) p (inl (omega arith))
    ∙ rw (==_refl p) refl
filled-inside (suc k) p x f (suc i) h =
    ap (filled k (p + 8) x (upd f p x)) {y = p + 8 + 8 * i} (omega arith)
    ∙ filled-inside k (p + 8) x (upd f p x) i (omega arith)

fill-filled :
    (k : ℕ) (p x : ℕ) (s : State)
    → p ≢ null
    → fill k p x s ≡ ok tt (record s { word = filled k p x s.word })
unfolding fill filled set_word
fill-filled zero p x s ne = refl
fill-filled (suc k) p x s ne =
    rw (==_of_ne p null ne)
      (fill-filled k (p + 8) x (record s { word = upd s.word p x }) (omega arith))

tag-size : (n : ℕ) → n < 2 ^ 58 → val_tag_table n / 64 ≡ n
tag-size n h = ground (
  arith,
  bit_or_step (n * 64 % 2 ^ 64) 7,
  bit_or_step (n * 64 % 2 ^ 64 / 2) 3,
  bit_or_step (n * 64 % 2 ^ 64 / 2 / 2) 1,
  bit_or-zero (n * 64 % 2 ^ 64 / 2 / 2 / 2),
)

-- The `k` words from `p` on.
abbrev pub elements : (Ptr → ℕ) → ℕ → Ptr → List ℕ
elements f zero p = []
elements f (suc k) p = f p ∷ elements f k (p + 8)

-- `n` times `x`.
abbrev pub copies : ℕ → ℕ → List ℕ
copies zero x = []
copies (suc n) x = x ∷ copies n x

elements-copies :
    (f : Ptr → ℕ) (n x : ℕ) (p : Ptr)
    → ((i : ℕ) → i < n → f (p + 8 * i) ≡ x)
    → elements f n p ≡ copies n x
elements-copies f zero x p all = refl
elements-copies f (suc n) x p all =
    ap₂ (λ y ys. y ∷ ys) (ap f {y = p + 8 * 0} (omega arith) ∙ all 0 (omega arith))
      (elements-copies f n x (p + 8)
        (λ i l. ap f {y = p + 8 * suc i} (omega arith) ∙ all (suc i) (omega arith)))

-- `s'`, with the objects of `s` and the new table.
abbrev pub with_table : State → State → Ptr → ℕ → ℕ → State
with_table s s' res n x = record s' {
  word = filled n (res + 8) x (upd s.word res (val_tag_table n));
  byte = s.byte;
}

-- For fewer than 2^58 elements and a block from `alloc`, `word_table_init` ends and returns the block:
-- its size field says `n`, its `n` elements, if there are any, are all `x`, and a word outside of the
-- table stays as it was.
pub word_table_init_lem :
    (malloc : ℕ → ℕ → Ptr) (r n x res : ℕ) (s s' : State) (q : ℕ)
    → res ≢ null
    → n < 2 ^ 58
    → alloc malloc r (n + 1) s ≡ ok res s'
    → (q < res) ⊎ (res + 8 + 8 * n ≤ q)
    → let after = with_table s s' res n x in
      (word_table_init malloc r n x s ≡ ok res after)
      × (after.word res / 64 ≡ n)
      × (elements after.word n (res + 8) ≡ copies n x)
      × (after.word q ≡ s.word q)
unfolding word_table_init set_word
word_table_init_lem malloc r n x res s s' q ne fits run out =
    let kept = alloc-keeps malloc r (n + 1) s res s' run in
    let w = upd s.word res (val_tag_table n) in
    (
      rw
          (
            mod-eq_of_lt {n = n + 1} {m = 2 ^ 64} (omega arith),
            run,
            ==_of_ne res null ne,
            fill-filled n (res + 8) x (record s' { word = upd s'.word res (val_tag_table n) })
                (omega arith),
          )
          (ap₂
            (λ w b.
              ok res
                (record s' { word = filled n (res + 8) x (upd w res (val_tag_table n)); byte = b }))
            kept.0 kept.1),
      ap (λ t. t / 64)
            (filled-outside n (res + 8) x w res (inl (omega arith)) ∙ rw (==_refl res) refl)
          ∙ tag-size n fits,
      elements-copies (filled n (res + 8) x w) n x (res + 8) (filled-inside n (res + 8) x w),
      filled-outside n (res + 8) x w q (ground arith) ∙ rw (==_of_ne q res (ground arith)) refl,
    )
