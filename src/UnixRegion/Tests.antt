-- ===== src/UnixRegion/Tests.antt =====
-- The theorems on the Unix allocator at concrete memories.
use unikernel_with_region_in.Base.{◌≡◌, refl, inl, arith}
use unikernel_with_region_in.State.{State, null, died}
use unikernel_with_region_in.Region
use unikernel_with_region_in.Region.Layout.{clear_status_bits, rp_boundary}
use unikernel_with_region_in.UnixRegion.{allocate_region, alloc}
use unikernel_with_region_in.UnixRegion.Same.{unix_same_lem, unix_dies_lem}
use unikernel_with_region_in.Example.{nothing, memory, no_block}

abbrev usual : State
usual = memory nothing nothing

-- No page is free.
abbrev full : State
full = record usual { global_freelist = null }

unix_same_lem_example :
    (alloc no_block 64 3 usual ≡ Region.alloc no_block 64 3 usual)
    × (allocate_region no_block 64 usual ≡ Region.allocate_region no_block 64 usual)
unix_same_lem_example = unix_same_lem no_block 64 3 usual (inl (omega arith))

unix_dies_lem_example :
    (alloc no_block 64 3 full ≡ died) × (allocate_region no_block 64 full ≡ died)
unfolding clear_status_bits rp_boundary
unix_dies_lem_example =
    unix_dies_lem no_block 64 3 full refl refl (omega arith) (omega arith) (omega arith)
