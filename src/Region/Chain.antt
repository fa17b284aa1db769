-- ===== src/Region/Chain.antt =====
-- Linked lists of region pages and of large objects, seen as lists of addresses.
use unikernel_with_region_in.Base.{
  ◌+◌, ◌≡◌, ◌≢◌, List, [], ◌∷◌, ◌++◌, count, count-append, arith, ==_of_ne, ==_refl, ◌<◌,
}
use unikernel_with_region_in.State.{Ptr, null, upd}

-- From `p` the links `n` lead through the addresses of the list, none of them NULL, to `t`.
abbrev pub IsChain : (Ptr → Ptr) → Ptr → List Ptr → Ptr → Type 0
IsChain n p [] t = p ≡ t
IsChain n p (q ∷ ps) t = (p ≡ q) × (q ≢ null) × IsChain n (n q) ps t

-- No address stands twice in a list.
abbrev pub Distinct : List Ptr → Type 0
Distinct ps = (x : Ptr) → count x ps < 2

-- The last address of a chain is `last`, the others are `front`.
abbrev pub ending : List Ptr → Ptr → List Ptr
ending front last = front ++ last ∷ []

pub count-ending :
    (x : Ptr) (front : List Ptr) (last : Ptr)
    → count x (ending front last) ≡ count x front + count x (last ∷ [])
count-ending x front last = count-append x front (last ∷ [])

module _ (n m : Ptr → Ptr) where
  pub IsChain-frame :
      (p : Ptr) (ps : List Ptr) (t : Ptr)
      → ((x : Ptr) → count x ps ≢ 0 → m x ≡ n x)
      → IsChain n p ps t
      → IsChain m p ps t
  IsChain-frame p [] t same c = c
  IsChain-frame p (q ∷ ps) t same c = (
    c.0,
    c.1,
    rw (same q (ground arith)) (IsChain-frame (n q) ps t (λ x h. same x (ground arith)) c.2),
  )

module _ (n : Ptr → Ptr) where
  -- A write outside a chain leaves it.
  pub IsChain-upd :
      (x v p : Ptr) (ps : List Ptr) (t : Ptr)
      → count x ps ≡ 0
      → IsChain n p ps t
      → IsChain (upd n x v) p ps t
  IsChain-upd x v p [] t out c = c
  IsChain-upd x v p (q ∷ ps) t out c =
      (c.0, c.1, rw (==_of_ne q x (ground arith)) (IsChain-upd x v (n q) ps t (ground arith) c.2))

  pub IsChain-append :
      (p : Ptr) (xs : List Ptr) (q : Ptr) (ys : List Ptr) (t : Ptr)
      → IsChain n p xs q
      → IsChain n q ys t
      → IsChain n p (xs ++ ys) t
  IsChain-append p [] q ys t c d = rw c d
  IsChain-append p (x ∷ xs) q ys t c d = (c.0, c.1, IsChain-append (n x) xs q ys t c.2 d)

  -- The first address of a chain is where it starts.
  pub IsChain-ne_null :
      (p : Ptr) (front : List Ptr) (last t : Ptr) → IsChain n p (ending front last) t → p ≢ null
  IsChain-ne_null p [] last t c = ground arith
  IsChain-ne_null p (x ∷ front) last t c = ground arith

  pub IsChain-last :
      (p : Ptr) (front : List Ptr) (last t : Ptr)
      → IsChain n p (ending front last) t
      → (last ≢ null) × (n last ≡ t)
  IsChain-last p [] last t c = (c.1, c.2)
  IsChain-last p (x ∷ front) last t c = IsChain-last (n x) front last t c.2

  -- A chain is redirected by a write at its last address.
  pub IsChain-relink :
      (p : Ptr) (front : List Ptr) (last t v : Ptr)
      → count last front ≡ 0
      → IsChain n p (ending front last) t
      → IsChain (upd n last v) p (ending front last) v
  IsChain-relink p [] last t v out c = (c.0, c.1, rw (==_refl last))
  IsChain-relink p (x ∷ front) last t v out c = (
    c.0,
    c.1,
    rw (==_of_ne x last (ground arith)) (IsChain-relink (n x) front last t v (ground arith) c.2),
  )
