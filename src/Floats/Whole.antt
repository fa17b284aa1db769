-- ===== src/Floats/Whole.antt =====
-- floorFloat, truncFloat and ceilFloat of XenRuntimeMini/src/RuntimeMini/Math.c on a double in memory.
use unikernel_with_region_in.Base.{◌<◌, ◌≤◌, ◌≡◌, ◌≢◌, refl, arith}
use unikernel_with_region_in.State.{Ptr, null, State, ok, load_of_ne_null}
use unikernel_with_region_in.Math.{half64}
use unikernel_with_region_in.Floats.{floor_float, trunc_float, ceil_float}
use unikernel_with_region_in.Floats.Value.{unit, decode}
use unikernel_with_region_in.Floats.Round.{
  floor_spec, floor_value_lem, trunc_spec, trunc_value_lem, ceil_spec, ceil_value_lem,
}

-- On every double in memory: floorFloat returns the floor of a finite one that fits 64 bits and raises
-- Overflow if it does not fit; truncFloat returns the whole part of a finite one below 2^63 and above
-- -2^63 and raises Overflow on every other; ceilFloat returns the ceiling of a finite one above -2^63
-- and below 2^63 and raises Overflow outside, save that its cast is undefined where the ceiling is
-- 2^63. All three raise Overflow on an infinity, and their cast is undefined on NaN.
pub whole_float_lem :
    (f : Ptr) (s : State)
    → f ≢ null
    → (floor_float f s ≡ ok (floor_spec unit half64 (decode (s.word f))) s)
      × (trunc_float f s ≡ ok (trunc_spec unit half64 (decode (s.word f))) s)
      × (ceil_float f s ≡ ok (ceil_spec unit half64 (decode (s.word f))) s)
unfolding floor_float trunc_float ceil_float
whole_float_lem f s ne =
    let r = decode (s.word f) in
    let loaded = load_of_ne_null State.word f s ne in
    let some_units : 0 < unit = omega arith in
    let two : 2 ≤ half64 = omega arith in
    (
      rw (loaded, floor_value_lem unit half64 some_units two r) refl,
      rw (loaded, trunc_value_lem unit half64 some_units two r) refl,
      rw (loaded, ceil_value_lem unit half64 some_units two r) refl,
    )
