-- ===== src/Tap/Device.antt =====
-- The system calls that open the tap interface: tun_alloc, setup and the first part of Receive of
-- Libs/netiflib/netif-tuntap.c. The kernel's answers and the constants of its headers are parameters.
-- The calls that are made are listed, the latest first; what the functions print is left out.
use unikernel_with_region_in.Base.{
  ℕ, Option, none, some, List, [], ◌∷◌, ◌==◌, if◌then◌else◌, bit_or,
}
use unikernel_with_region_in.Base.Int.{ℤ, pos, negsuc, eqb_ℤ, ltb_ℤ}

-- The name of an interface, its characters.
abbrev pub Name : Type 0
Name = List ℕ

pub data SystemCall : Type 0 where
  opens : SystemCall
  creates : (fd : ℤ) (name : Name) (flags : ℕ) → SystemCall
  closes : (fd : ℤ) → SystemCall
  opens_socket : SystemCall
  gets_flags : (fd : ℤ) (name : Name) → SystemCall
  sets_flags : (fd : ℤ) (name : Name) (flags : ℕ) → SystemCall

-- What the calls return in one call of Receive, which makes each of them once at most: `open` and
-- `socket` a descriptor or -1; TUNSETIFF the name that it writes back, or `none` for a negative
-- result; SIOCGIFFLAGS the flags, or `none` for -1, where the program goes on and `stale_flags` is
-- what stands in the union with the address family; SIOCSIFFLAGS whether it succeeds, which only
-- prints.
pub record Kernel : Type 0 where
  pub open_clone : ℤ
  pub tun_set_iff : Name → ℕ → Option Name
  pub socket : ℤ
  pub get_flags : ℤ → Name → Option ℕ
  pub stale_flags : ℕ
  -- the first IFNAMSIZ characters, strncpy
  pub cut_name : Name → Name
  -- IFF_TAP and IFF_UP|IFF_RUNNING|IFF_BROADCAST|IFF_MULTICAST
  pub iff_tap : ℕ
  pub iff_running : ℕ

-- The outcome of a call: a value, or the end of the program by `exit` with a status.
pub data Outcome (A : Type 0) : Type 0 where
  returns : A → List SystemCall → Outcome A
  exits : ℕ → List SystemCall → Outcome A

abbrev pub Io : Type 0 → Type 0
Io A = List SystemCall → Outcome A

abbrev pub give : {A : Type 0} → A → Io A
give a = returns a

infixl 5 ◌>>=◌ ◌>>◌
abbrev pub ◌>>=◌ : {A B : Type 0} → Io A → (A → Io B) → Io B
◌>>=◌ m f cs = elim (m cs) [ returns a cs' ↦ f a cs' | exits n cs' ↦ exits n cs' ]

abbrev pub ◌>>◌ : {A B : Type 0} → Io A → Io B → Io B
m >> k = m >>= λ _. k

abbrev pub traces : SystemCall → Io (Unit {0})
traces c cs = returns tt (c ∷ cs)

abbrev pub or_else : Option ℕ → ℕ → ℕ
or_else none n = n
or_else (some m) n = m

module _ (kernel : Kernel) where
  -- An empty name is not copied to the request, whose bytes are 0.
  unfoldable pub asked_name : Name → Name
  asked_name [] = []
  asked_name (c ∷ dev) = kernel.cut_name (c ∷ dev)

  -- The descriptor and the name that `dev` holds then.
  unfoldable pub tun_alloc : Name → ℕ → Io (ℤ × Name)
  tun_alloc dev flags = do
    traces opens
    let fd = kernel.open_clone
    if ltb_ℤ fd (pos 0) then give (fd, dev) else (do
      let name = asked_name dev
      traces (creates fd name flags)
      elim (kernel.tun_set_iff name flags) [
        | none ↦ traces (closes fd) >> exits 0
        | some dev' ↦ give (fd, dev')
      ])

  unfoldable pub setup : Name → Io (Unit {0})
  setup dev = do
    traces opens_socket
    let fd = kernel.socket
    let name = kernel.cut_name dev
    traces (gets_flags fd name)
    let old = or_else (kernel.get_flags fd name) kernel.stale_flags
    let flags = bit_or old kernel.iff_running
    if flags == old then give tt else traces (sets_flags fd name flags)

  -- Receive in front of its call of read: the value of `tapfd`; with -1 it returns NULL.
  unfoldable pub open_tap : Name → ℤ → Io ℤ
  unfolding tun_alloc setup
  open_tap tap0 tapfd =
      if eqb_ℤ tapfd (negsuc 0)
      then (do
        p ← tun_alloc tap0 kernel.iff_tap
        if eqb_ℤ p.0 (negsuc 0) then give p.0 else (do setup p.1; give p.0))
      else give tapfd
