-- ===== src/VersionedHandle/Tests.antt =====
-- Handles of 16 bits of index and 16 of generation, as include/metl/handle_pool.hpp has them.
use metl.Prelude.{◌≡◌, refl}
use metl.VersionedHandle.{make, issued, from_packed, index, generation, valid, null}

issued_test : issued 16 16 3 5 ≡ 327683
unfolding issued metl.VersionedHandle.pack metl.VersionedHandle.packed_bits
issued_test = refl

null_test : make 16 16 9 0 ≡ null
unfolding make metl.VersionedHandle.canonical metl.VersionedHandle.pack
    metl.VersionedHandle.packed_bits metl.VersionedHandle.value_mask
null_test = refl
