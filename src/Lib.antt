-- ===== src/Lib.antt =====
-- metl: fixed-capacity containers and handles for embedded C++, without heap allocation. The code is
-- under include/metl. Each module here is named after the header that it models.
--
-- Parts and files
--   Prelude      shared names, tests, lists, bit masks, sums. Prelude.Two is a pair of objects of one
--                class, Prelude.Integers the signed numbers. Prelude.Outcome is what a call of a
--                member function ends in: a value or an exception with the object's state, a failed
--                METL_ASSERT or METL_HARDEN (`stopped`), or an access to storage without an object
--                (`undefined`).
--   Ring         include/metl/detail/ring_core.hpp: storage, index helpers, insertion at the back,
--                removal at the front, clear. Ring.Spec is the list of at most `cap` elements that
--                Ring.Represents relates it to. Ring.Whole copies, moves and swaps whole rings, and
--                Ring.Iterator is the iterator.
--   FixedDeque   include/metl/fixed_deque.hpp: insertion at the front, removal at the back.
--   RingBuffer   include/metl/ring_buffer.hpp: push_overwrite.
--   RingTrace    sequences of calls of these three, with the replies a client sees.
--   VersionedHandle  include/metl/versioned_handle.hpp and include/metl/detail/low_bits.hpp: the
--                packed index and generation.
--   HandlePool   include/metl/handle_pool.hpp, whose handles are those of VersionedHandle:
--                FreeList and Invariant say what a well-formed pool is, Release and Emplace treat the
--                two halves of a slot's life, Lookup, Effects, Emplaced and Clear give each operation
--                as a change of the map from handles to objects, and Trace runs sequences of calls.
--   FixedVector  include/metl/fixed_vector.hpp: Storing gives the vector that holds a list, Slides and
--                Shifts the loops that move elements, Ends, Insert, Erase, EraseIf and Ranges what each
--                operation does to the list, and Pairs swap and the comparisons of two vectors.
--   FlatSet      include/metl/flat_set.hpp: Bisect is the binary search, Shift and Close what the shifts
--                leave in each slot, Order and Laws the set as a sorted list, Rank the place of a key
--                in it, Refine, Operations and Finds what the array does of that.
--   UnorderedMap include/metl/static_unordered_map.hpp, with the mix of include/metl/hash.hpp:
--                Invariant is what a table satisfies between two operations, Steps, Probe and Lookup
--                treat the two probe loops, Write the change of one slot and Changes the elements'
--                coming and going; Settle, Target, Displace, Rebuild and Rehash are the rebuild in
--                place, and Insert, Operations, Erase, Update and Clear draw the conclusions for `find`.
--                Access has the members that give a reference, and what they do when a constructor
--                throws, Copy copies, moves and swaps whole maps, and EraseIf has the erasure by
--                iterator and by predicate.
--   Bit          include/metl/bit.hpp and include/metl/detail/transparent.hpp: bit_ceil, and the number
--                of slots that UnorderedMap is given.
--   Window       free-running counters in a storage of a power of two of slots, for UnorderedMap and
--                SpscQueue.
--   SpscQueue    include/metl/spsc_queue.hpp and include/metl/detail/index_distance.hpp: two threads as
--                program counters, one access to shared memory per step, interleaved in any order.
--                Invariant is what every reachable state satisfies, Produce and Consume keep it, Safety
--                and Progress draw the conclusions, Alone treats the hints and the destructor.
--   TickExtender include/metl/tick_extender.hpp: a counter of `bits` bits extended to 64.
--   Parse        include/metl/parse.hpp: unsigned and signed decimal, and hex; Number, Exact, Signed and
--                Hex compare each parser with the number its digits write, computed without a bound.
--   Format       include/metl/format.hpp: unsigned and signed decimal, and the round trips through Parse.
--
-- Conventions
--   Numbers are natural numbers, with `std::size_t` and the generation types wrapped around where
--   the code adds or subtracts. Template parameters such as Capacity are arguments. An element is a
--   value of any type A, and `Option A` stands for the call of its constructor, `none` for one that
--   throws. Moves, assignments and swaps of the elements of Ring, FixedVector, FlatSet and
--   UnorderedMap do not throw, nor do hashers and key equalities. In SpscQueue a load of the other
--   thread's index may be old; a release store makes what was written before it visible to the
--   thread that acquires the index. Constructors and destructors of elements do not call back into
--   the container. METL_ASSERT is on, and METL_DASSERT, for debug builds, is off. A copy
--   constructor of Ring that throws runs the destructor on what it has built, since it delegates.
--   The loop of `clear` in Ring runs on fuel, one more than the number of elements, which the proof
--   shows to be enough; so do the search of FlatSet, on one more than the number of keys, and
--   `decimal_digits`, on the number itself, the destructor's loop of SpscQueue, on one more than
--   the capacity, the walk of an iterator through a ring, on one more than its size, `erase_if` of
--   UnorderedMap, on one more than the number of slots, and the inner loops of the rebuild in
--   UnorderedMap, on the number of slots and one more; all other loops are by recursion on their
--   count or on the text that they read.
--
-- Not modelled
--   The formatting of hex, the headers that are not named above, iterators but for the ring's and
--   the search of UnorderedMap's, the move operations of FixedVector, copy, move and swap of
--   FlatSet and its handlers of moves that throw, and what an element's own operations do.
pub mod Bit
pub mod FixedDeque
pub mod FixedVector
pub mod FlatSet
pub mod Format
pub mod HandlePool
pub mod Parse
pub mod Prelude
pub mod Ring
pub mod RingBuffer
pub mod RingTrace
pub mod SpscQueue
pub mod TickExtender
pub mod UnorderedMap
pub mod VersionedHandle
pub mod Window
