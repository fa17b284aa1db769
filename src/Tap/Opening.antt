-- ===== src/Tap/Opening.antt =====
-- How often Receive opens the tap interface, and what it asks of the kernel then.
use unikernel_with_region_in.Base.{
  ℕ, zero, suc, ◌≡◌, refl, ap, ◌∙◌, false, Option, none, some, List, [], ◌∷◌, ◌++◌, length, subst,
  ◌==◌, if◌then◌else◌, bit_or, Bool-cases, inl, inr, arith,
}
use unikernel_with_region_in.Base.Int.{ℤ, pos, negsuc, eqb_ℤ, ltb_ℤ}
use unikernel_with_region_in.Tap.Device.{
  Name, SystemCall, opens, creates, closes, opens_socket, gets_flags, sets_flags, Kernel, Outcome,
  returns, exits, Io, give, ◌>>=◌, ◌>>◌, or_else, asked_name, tun_alloc, setup, open_tap,
}

bind_returns :
    {A B : Type 0} {a : A} {cs' : List SystemCall} (m : Io A) (f : A → Io B) (cs : List SystemCall)
    → m cs ≡ returns a cs'
    → (m >>= f) cs ≡ f a cs'
bind_returns m f cs h = ap (λ o. elim o [ returns b ds ↦ f b ds | exits n ds ↦ exits n ds ]) h

bind_exits :
    {A B : Type 0} {n : ℕ} {cs' : List SystemCall} (m : Io A) (f : A → Io B) (cs : List SystemCall)
    → m cs ≡ exits n cs'
    → (m >>= f) cs ≡ exits n cs'
bind_exits m f cs h = ap (λ o. elim o [ returns b ds ↦ f b ds | exits n ds ↦ exits n ds ]) h

-- Calls of Receive, one after the other, as far as the interface is concerned: each kernel of the list
-- is what answers in one of them.
unfoldable pub receives : List Kernel → Name → ℤ → Io ℤ
receives [] tap0 tapfd = give tapfd
receives (kernel ∷ kernels) tap0 tapfd =
    open_tap kernel tap0 tapfd >>= λ fd. receives kernels tap0 fd

-- The calls that set the interface up: its flags are only set where one is missing.
abbrev pub set_up : Kernel → Name → List SystemCall
set_up kernel dev =
    let name = kernel.cut_name dev in
    let fd = kernel.socket in
    let old = or_else (kernel.get_flags fd name) kernel.stale_flags in
    let wanted = bit_or old kernel.iff_running in
    let asked = gets_flags fd name ∷ opens_socket ∷ [] in
    if wanted == old then asked else sets_flags fd name wanted ∷ asked

setup-set_up :
    (kernel : Kernel) (dev : Name) (cs : List SystemCall)
    → setup kernel dev cs ≡ returns tt (set_up kernel dev ++ cs)
unfolding setup
setup-set_up kernel dev cs =
    let old = or_else (kernel.get_flags kernel.socket (kernel.cut_name dev)) kernel.stale_flags in
    elim (Bool-cases (bit_or old kernel.iff_running == old)) [
      | inl e ↦ rw e refl
      | inr e ↦ rw e refl
    ]

descriptor_eqb : (fd : ℤ) → ltb_ℤ fd (pos 0) ≡ false → eqb_ℤ fd (negsuc 0) ≡ false
descriptor_eqb (pos m) h = ground arith
descriptor_eqb (negsuc m) h = ground arith

-- An open interface is not opened again.
receives_open :
    (kernels : List Kernel) (tap0 : Name) (fd : ℤ) (cs : List SystemCall)
    → eqb_ℤ fd (negsuc 0) ≡ false
    → receives kernels tap0 fd cs ≡ returns fd cs
unfolding receives open_tap
receives_open [] tap0 fd cs h = refl
receives_open (kernel ∷ kernels) tap0 fd cs h = rw h (receives_open kernels tap0 fd cs h)

-- `n` calls of `open` before `cs`.
unfoldable pub attempts : ℕ → List SystemCall → List SystemCall
attempts zero cs = cs
attempts (suc n) cs = attempts n (opens ∷ cs)

-- In all of these calls of Receive `open` returns -1.
abbrev pub AreFailing : List Kernel → Type 0
AreFailing [] = Unit
AreFailing (kernel ∷ kernels) = (kernel.open_clone ≡ negsuc 0) × AreFailing kernels

receives_unopened :
    (failing later : List Kernel) (tap0 : Name) (cs : List SystemCall)
    → AreFailing failing
    → receives (failing ++ later) tap0 (negsuc 0) cs
      ≡ receives later tap0 (negsuc 0) (attempts (length failing) cs)
unfolding receives open_tap tun_alloc attempts
receives_unopened [] later tap0 cs h = refl
receives_unopened (kernel ∷ kernels) later tap0 cs h =
    rw h.0 (receives_unopened kernels later tap0 (opens ∷ cs) h.1)

setup_gives :
    (kernel : Kernel) (dev : Name) (fd : ℤ) (cs : List SystemCall)
    → (setup kernel dev >> give fd) cs ≡ returns fd (set_up kernel dev ++ cs)
setup_gives kernel dev fd cs =
    bind_returns (setup kernel dev) (λ _. give fd) cs (setup-set_up kernel dev cs)

-- What the call of Receive leaves in which the clone device opens, after the calls `cs`, and what all
-- calls after it leave as it is: the interface is created and set up; if it cannot be created, the
-- device is closed, and the program ends with status 0.
unfoldable pub opened : Kernel → Name → List SystemCall → Outcome ℤ
opened kernel tap0 cs =
    let fd = kernel.open_clone in
    let name = asked_name kernel tap0 in
    let created = creates fd name kernel.iff_tap ∷ opens ∷ cs in
    elim (kernel.tun_set_iff name kernel.iff_tap) [
      | none ↦ exits 0 (closes fd ∷ created)
      | some dev ↦ returns fd (set_up kernel dev ++ created)
    ]

first_opens :
    (kernel : Kernel) (tap0 dev : Name) (cs : List SystemCall)
    → ltb_ℤ kernel.open_clone (pos 0) ≡ false
    → kernel.tun_set_iff (asked_name kernel tap0) kernel.iff_tap ≡ some dev
    → open_tap kernel tap0 (negsuc 0) cs
      ≡ returns kernel.open_clone (
          set_up kernel dev
          ++ (creates kernel.open_clone (asked_name kernel tap0) kernel.iff_tap ∷ opens ∷ cs))
unfolding open_tap tun_alloc
first_opens kernel tap0 dev cs o h =
    rw (o, h, descriptor_eqb kernel.open_clone o)
      (setup_gives kernel dev kernel.open_clone
        (creates kernel.open_clone (asked_name kernel tap0) kernel.iff_tap ∷ opens ∷ cs))

first_exits :
    (kernel : Kernel) (tap0 : Name) (cs : List SystemCall)
    → ltb_ℤ kernel.open_clone (pos 0) ≡ false
    → kernel.tun_set_iff (asked_name kernel tap0) kernel.iff_tap ≡ none
    → open_tap kernel tap0 (negsuc 0) cs
      ≡ exits 0 (
          closes kernel.open_clone
          ∷ creates kernel.open_clone (asked_name kernel tap0) kernel.iff_tap
          ∷ opens
          ∷ cs)
unfolding open_tap tun_alloc
first_exits kernel tap0 cs o h = rw (o, h) refl

append_none : (kernels : List Kernel) → kernels ++ [] ≡ kernels
append_none [] = refl
append_none (kernel ∷ kernels) = ap (λ ks. kernel ∷ ks) (append_none kernels)

receives_answered :
    (kernel : Kernel) (later : List Kernel) (tap0 : Name) (cs : List SystemCall)
    (answer : Option Name)
    → ltb_ℤ kernel.open_clone (pos 0) ≡ false
    → kernel.tun_set_iff (asked_name kernel tap0) kernel.iff_tap ≡ answer
    → receives (kernel ∷ later) tap0 (negsuc 0) cs ≡ opened kernel tap0 cs
unfolding receives opened
receives_answered kernel later tap0 cs none o h =
    bind_exits (open_tap kernel tap0 (negsuc 0)) (receives later tap0) cs
      (first_exits kernel tap0 cs o h)
    ∙ rw (opened, h) refl
receives_answered kernel later tap0 cs (some dev) o h =
    bind_returns (open_tap kernel tap0 (negsuc 0)) (receives later tap0) cs
      (first_opens kernel tap0 dev cs o h)
    ∙ receives_open later tap0 kernel.open_clone _ (descriptor_eqb kernel.open_clone o)
    ∙ rw (opened, h) refl

-- Calls of Receive at the start of the program, each with its own answers of the kernel: in the first
-- ones `open` returns -1, then it returns a descriptor, and whatever calls follow. Each of the first
-- ones calls `open` once and nothing else, and leaves the interface unopened. The next one creates the
-- interface, asks for its flags, sets them if one is missing, and keeps the descriptor, and the calls
-- after it make no system calls for the interface and keep the descriptor; but if it cannot create the
-- interface, it closes the descriptor and the program ends with status 0.
pub receives_lem :
    (failing : List Kernel) (kernel : Kernel) (later : List Kernel) (tap0 : Name)
    → AreFailing failing
    → ltb_ℤ kernel.open_clone (pos 0) ≡ false
    → let before = attempts (length failing) [] in
      (receives failing tap0 (negsuc 0) [] ≡ returns (negsuc 0) before)
      × (receives (failing ++ (kernel ∷ later)) tap0 (negsuc 0) [] ≡ opened kernel tap0 before)
unfolding receives
receives_lem failing kernel later tap0 h o = (
  subst (λ ks. receives ks tap0 (negsuc 0) [] ≡ returns (negsuc 0) (attempts (length failing) []))
      (append_none failing) (receives_unopened failing [] tap0 [] h),
  receives_unopened failing (kernel ∷ later) tap0 [] h
      ∙ receives_answered kernel later tap0 (attempts (length failing) [])
          (kernel.tun_set_iff (asked_name kernel tap0) kernel.iff_tap) o refl,
)
