-- ===== src/Netif/Threads/StartUp.antt =====
-- How the program starts, and that the semaphore lets it go on to its calls of Send.
use unikernel_with_region_in.Base.{
  ℕ, zero, suc, ◌≢◌, ◌+◌, ◌≡◌, ◌⊎◌, ◌≤◌, ◌<◌, inl, inr, refl, ap, subst, arith,
}
use unikernel_with_region_in.State.{Ptr}
use unikernel_with_region_in.Netif.Threads.{
  Netfront, calls_init, calls_up, ended, Sml, calls_down, gives_back, in_main, sends, System, Step,
  init, ups, downs, gives, takes, returns, IsReached, after, raised, held, past, IsThere,
  IsReached-IsSound,
}

raised-ended : (n : Netfront) → 0 < raised n → n ≡ ended
raised-ended calls_init h = absurd (omega arith)
raised-ended calls_up h = absurd (omega arith)
raised-ended ended h = refl

Netfront-cases : (n : Netfront) → (n ≡ calls_init) ⊎ ((n ≡ calls_up) ⊎ (n ≡ ended))
Netfront-cases calls_init = inl refl
Netfront-cases calls_up = inr (inl refl)
Netfront-cases ended = inr (inr refl)

Sml-cases : (p : Sml) → (p ≡ calls_down) ⊎ ((p ≡ gives_back) ⊎ ((p ≡ in_main) ⊎ (p ≡ sends)))
Sml-cases calls_down = inl refl
Sml-cases gives_back = inr (inl refl)
Sml-cases in_main = inr (inr (inl refl))
Sml-cases sends = inr (inr (inr refl))

-- How many steps are left before Send.
abbrev left_of : Netfront → ℕ
left_of calls_init = 2
left_of calls_up = 1
left_of ended = 0

abbrev before : Sml → ℕ
before calls_down = 3
before gives_back = 2
before in_main = 1
before sends = 0

abbrev rank : System → ℕ
rank s = left_of s.netfront + before s.sml

before_none : (p : Sml) → before p ≡ 0 → p ≡ sends
before_none calls_down h = absurd (omega arith)
before_none gives_back h = absurd (omega arith)
before_none in_main h = absurd (omega arith)
before_none sends h = refl

-- `dev` is what init_netfront returns.
module _ (dev : Ptr) where
  next : (k : ℕ) (s : System) → IsReached dev k s → (t : System) × Step dev s t
  next k s h =
      let v = IsReached-IsSound dev k s h in
      elim (Netfront-cases s.netfront) [
        | inl e ↦ (_, init e)
        | inr (inl e) ↦ (_, ups e)
        | inr (inr e) ↦ elim (Sml-cases s.sml) [
          | inl f ↦ (_, downs {n = 0} f (omega (arith, v.count, ap raised e, ap held f)))
          | inr (inl f) ↦ (_, gives f)
          | inr (inr (inl f)) ↦
              (_, takes {n = 0} f (omega (arith, v.count, ap raised e, ap held f)))
          | inr (inr (inr f)) ↦ (_, returns f)
        ]
      ]

  -- What Send needs of `net_dev`.
  abbrev pub IsSafe : Sml → Ptr → Type 0
  IsSafe calls_down d = Unit
  IsSafe gives_back d = d ≡ dev
  IsSafe in_main d = d ≡ dev
  IsSafe sends d = d ≡ dev

  IsThere-IsSafe :
      (n : Netfront) (p : Sml) (d : Ptr) → past p ≤ raised n → IsThere dev n d → IsSafe p d
  IsThere-IsSafe n calls_down d h there = tt
  IsThere-IsSafe n gives_back d h there = subst (λ m. IsThere dev m d) (raised-ended n h) there
  IsThere-IsSafe n in_main d h there = subst (λ m. IsThere dev m d) (raised-ended n h) there
  IsThere-IsSafe n sends d h there = subst (λ m. IsThere dev m d) (raised-ended n h) there

  -- In every state that the threads can come to, the program has not got past its first `down`, or
  -- `net_dev` is what init_netfront returned; and there is a next step, so that the threads never block
  -- one another.
  pub threads_lem :
      (k : ℕ) (s : System)
      → IsReached dev k s
      → IsSafe s.sml s.net_dev × ((t : System) × Step dev s t)
  threads_lem k s h =
      let v = IsReached-IsSound dev k s h in
      (IsThere-IsSafe s.netfront s.sml s.net_dev v.order v.device, next k s h)

  -- From `s` on, the program comes to Send within `n` steps, whichever steps are taken: as long as it
  -- is not there, there is a step, and after each step that there is it comes there within one step
  -- less.
  pub data ComesToSend : ℕ → System → Type 0 where
    there : {n : ℕ} {s : System} → s.sml ≡ sends → ComesToSend n s
    later :
        {n : ℕ} {s : System}
        → (t : System) × Step dev s t
        → ((t : System) → Step dev s t → ComesToSend n t)
        → ComesToSend (suc n) s

  rank-Step : (s t : System) → Step dev s t → s.sml ≢ sends → rank t + 1 ≡ rank s
  rank-Step s t (init e) ne = omega (arith, ap left_of e)
  rank-Step s t (ups e) ne = omega (arith, ap left_of e)
  rank-Step s t (downs e f) ne = omega (arith, ap before e)
  rank-Step s t (gives e) ne = omega (arith, ap before e)
  rank-Step s t (takes e f) ne = omega (arith, ap before e)
  rank-Step s t (returns e) ne = absurd (ne e)

  sends_or_not : (p : Sml) → (p ≡ sends) ⊎ (p ≢ sends)
  sends_or_not calls_down = inr (λ e. omega (arith, ap before e))
  sends_or_not gives_back = inr (λ e. omega (arith, ap before e))
  sends_or_not in_main = inr (λ e. omega (arith, ap before e))
  sends_or_not sends = inl refl

  comes_within : (n k : ℕ) (s : System) → IsReached dev k s → rank s ≤ n → ComesToSend n s
  comes_within zero k s h few = there (before_none s.sml (omega (arith, few)))
  comes_within (suc n) k s h few = elim (sends_or_not s.sml) [
    | inl e ↦ there e
    | inr ne ↦
        later (next k s h)
          (λ t st. comes_within n (suc k) t (after h st) (omega (arith, few, rank-Step s t st ne)))
  ]

  left_most : (n : Netfront) → left_of n ≤ 2
  left_most calls_init = omega arith
  left_most calls_up = omega arith
  left_most ended = omega arith

  before_most : (p : Sml) → before p ≤ 3
  before_most calls_down = omega arith
  before_most gives_back = omega arith
  before_most in_main = omega arith
  before_most sends = omega arith

  -- For a program whose main calls Send over and over: in every state that the threads can come to,
  -- and in whatever order they go on from there, the program is in Send within five steps, and as long
  -- as it is not, some thread can go on. So neither its start nor a Send waits for ever for the
  -- semaphore.
  pub start_up_lem : (k : ℕ) (s : System) → IsReached dev k s → ComesToSend 5 s
  start_up_lem k s h = comes_within 5 k s h (omega (arith, left_most s.netfront, before_most s.sml))
