-- ===== src/Netif/Threads.antt =====
-- The threads of Libs/netiflib/netif-miniOS.c and their semaphore: app_main creates one thread that
-- sets up the network device and one that runs the program, which calls Send.
--
-- A step is a call of a thread that ends: `down` ends only on a positive count.
pub mod StartUp
use unikernel_with_region_in.Base.{
  ℕ, zero, suc, ◌+◌, ◌≡◌, ◌≢◌, ◌⊎◌, ◌≤◌, ◌<◌, inl, inr, refl, ap, subst, ◌∙◌, arith,
}
use unikernel_with_region_in.State.{Ptr, null}

-- What netfront_thread does next.
pub data Netfront : Type 0 where
  calls_init : Netfront
  calls_up : Netfront
  ended : Netfront

-- What sml_thread does next; `sends` is between the `down` and the `up` of Send.
pub data Sml : Type 0 where
  calls_down : Sml
  gives_back : Sml
  in_main : Sml
  sends : Sml

pub record System : Type 0 where
  pub net_dev : Ptr
  pub net_sem : ℕ
  pub netfront : Netfront
  pub sml : Sml

-- After app_main.
abbrev pub started : System
started = record { net_dev = null; net_sem = 0; netfront = calls_init; sml = calls_down }

-- How often netfront_thread has raised the semaphore, whether the program holds it, and whether the
-- program has got past its first `down`.
abbrev pub raised : Netfront → ℕ
raised calls_init = 0
raised calls_up = 0
raised ended = 1

abbrev pub held : Sml → ℕ
held calls_down = 0
held gives_back = 1
held in_main = 0
held sends = 1

abbrev pub past : Sml → ℕ
past calls_down = 0
past gives_back = 1
past in_main = 1
past sends = 1

-- `dev` is what init_netfront returns.
module _ (dev : Ptr) where
  pub data Step : System → System → Type 0 where
    init :
        {s : System}
        → s.netfront ≡ calls_init
        → Step s (record s { net_dev = dev; netfront = calls_up })
    ups :
        {s : System}
        → s.netfront ≡ calls_up
        → Step s (record s { net_sem = s.net_sem + 1; netfront = ended })
    downs :
        {s : System} {n : ℕ}
        → s.sml ≡ calls_down
        → s.net_sem ≡ suc n
        → Step s (record s { net_sem = n; sml = gives_back })
    gives :
        {s : System}
        → s.sml ≡ gives_back
        → Step s (record s { net_sem = s.net_sem + 1; sml = in_main })
    takes :
        {s : System} {n : ℕ}
        → s.sml ≡ in_main
        → s.net_sem ≡ suc n
        → Step s (record s { net_sem = n; sml = sends })
    returns :
        {s : System} → s.sml ≡ sends → Step s (record s { net_sem = s.net_sem + 1; sml = in_main })

  -- What the threads can have come to after `k` steps.
  pub data IsReached : ℕ → System → Type 0 where
    at_start : IsReached 0 started
    after : {k : ℕ} {s t : System} → IsReached k s → Step s t → IsReached (suc k) t

  -- The device is there once the thread has set it.
  abbrev pub IsThere : Netfront → Ptr → Type 0
  IsThere calls_init d = Unit
  IsThere calls_up d = d ≡ dev
  IsThere ended d = d ≡ dev

  pub record IsSound (s : System) : Type 0 where
    pub count : s.net_sem + held s.sml ≡ raised s.netfront
    pub order : past s.sml ≤ raised s.netfront
    pub device : IsThere s.netfront s.net_dev

  pub IsSound-Step : (s t : System) → IsSound s → Step s t → IsSound t
  IsSound-Step s t v (init e) = record {
    count = omega (arith, v.count, ap raised e);
    order = omega (arith, v.order, ap raised e);
    device = refl;
  }
  IsSound-Step s t v (ups e) = record {
    count = omega (arith, v.count, ap raised e);
    order = omega (arith, v.order, ap raised e);
    device = subst (λ n. IsThere n s.net_dev) e v.device;
  }
  IsSound-Step s t v (downs e f) = record {
    count = omega (arith, v.count, ap held e, f);
    order = omega (arith, v.count, ap held e, f);
    device = v.device;
  }
  IsSound-Step s t v (gives e) = record {
    count = omega (arith, v.count, ap held e);
    order = omega (arith, v.order, ap past e);
    device = v.device;
  }
  IsSound-Step s t v (takes e f) = record {
    count = omega (arith, v.count, ap held e, f);
    order = omega (arith, v.order, ap past e);
    device = v.device;
  }
  IsSound-Step s t v (returns e) = record {
    count = omega (arith, v.count, ap held e);
    order = omega (arith, v.order, ap past e);
    device = v.device;
  }

  pub IsReached-IsSound : (k : ℕ) (s : System) → IsReached k s → IsSound s
  IsReached-IsSound k s at_start = record { count = refl; order = omega arith; device = tt }
  IsReached-IsSound k s (after {s = r} h st) = IsSound-Step r s (IsReached-IsSound _ r h) st
