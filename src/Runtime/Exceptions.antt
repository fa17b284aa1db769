-- ===== src/Runtime/Exceptions.antt =====
-- What an uncaught exception prints once the program has registered Fail and SysErr.
use unikernel_with_region_in.Base.{
  ℕ, ◌+◌, ◌≡◌, ◌≢◌, refl, arith, ◌==◌, ==_of_ne, Bool-cases, inl, inr, [], ◌∷◌, if◌then◌else◌,
}
use unikernel_with_region_in.State.{Ptr, null, State, ok, load_of_ne_null}
use unikernel_with_region_in.Strings.{data_of_string}
use unikernel_with_region_in.Runtime.{Globals, sml_set_fail_number, uncaught_exception}

-- The number that an exception value of ML carries.
abbrev pub number : State → Ptr → ℕ
number s ep = s.word (s.word ep)

abbrev pub registered : State → Ptr → Ptr → Globals → Globals
registered s fail syserr g = record g {
  fail_number = number s fail;
  syserr_number = number s syserr;
}

-- After the program has registered an exception as Fail and another one with a different number as
-- SysErr, an uncaught exception prints the string of its argument if it has the first number, the
-- string that its argument begins with if it has the second, and no string otherwise.
pub uncaught_exception_lem :
    (fail syserr : Ptr) (n : ℕ) (ep : Ptr) (g : Globals) (s : State)
    → fail ≢ null
    → s.word fail ≢ null
    → syserr ≢ null
    → s.word syserr ≢ null
    → s.word (ep + 8) ≢ null
    → number s fail ≢ number s syserr
    → let g1 = record g { fail_number = number s fail } in
      let g2 = registered s fail syserr g in
      (sml_set_fail_number fail 1 g s ≡ ok g1 s)
      × (sml_set_fail_number syserr 2 g1 s ≡ ok g2 s)
      × (uncaught_exception n ep g2 s
          ≡ ok
              (
                record g2 { uncaught_exnname = n },
                if n == number s fail
                    then data_of_string (s.word (ep + 8)) ∷ []
                    else if n == number s syserr
                    then data_of_string (s.word (s.word (ep + 8))) ∷ []
                    else [],
              )
              s)
unfolding sml_set_fail_number uncaught_exception
uncaught_exception_lem fail syserr n ep g s nf nfe ns nse na differ = (
  rw (load_of_ne_null State.word fail s nf, load_of_ne_null State.word (s.word fail) s nfe) refl,
  rw (load_of_ne_null State.word syserr s ns, load_of_ne_null State.word (s.word syserr) s nse)
      refl,
  elim (Bool-cases (n == number s fail)) [
    | inl h ↦
        rw (h, load_of_ne_null State.word (ep + 8) s (omega arith))
          (rw (==_of_ne n (number s syserr) (λ e. differ (ground (arith, h, e)))) refl)
    | inr h ↦ rw (h) (elim (Bool-cases (n == number s syserr)) [
      | inl k ↦
          rw
            (
              k,
              load_of_ne_null State.word (ep + 8) s (omega arith),
              load_of_ne_null State.word (s.word (ep + 8)) s na,
            )
            refl
      | inr k ↦ rw (k) refl
    ])
  ],
)
