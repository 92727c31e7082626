-- ===== src/RingTrace/Tests.antt =====
-- Runs of include/metl/detail/ring_core.hpp and its users on concrete calls.
use metl.Prelude.{ℕ, ◌≡◌, refl, true, none, some, List, [], ◌∷◌, arith}
use metl.Prelude.Outcome.{ret, Implements}
use metl.Ring
use metl.Ring.{Ring, physical_index, advance, retreat}
use metl.Ring.Represents.{Represents, new-Represents}
use metl.RingTrace.{Op, Reply, unit, threw, flag, value, step, spec_step, run}
use metl.RingTrace.Refine.{run_refines}

-- A ring of three that wraps, overwrites, and meets an exception.
abbrev calls : List (Op ℕ)
calls =
    Op.emplace_back (some 1)
    ∷ Op.emplace_back (some 2)
    ∷ Op.try_emplace_front none
    ∷ Op.try_emplace_front (some 3)
    ∷ Op.push_overwrite true (some 4)
    ∷ Op.front
    ∷ Op.at 2
    ∷ Op.pop_back
    ∷ Op.back
    ∷ []

replies_test :
    run (spec_step 3) calls []
    ≡ ret
        (value 1 ∷ value 2 ∷ threw ∷ flag true ∷ value 4 ∷ value 1 ∷ value 4 ∷ unit ∷ value 2 ∷ [])
        (1 ∷ 2 ∷ [])
unfolding run spec_step metl.RingTrace.reply metl.Ring.Spec.emplace_back
    metl.Ring.Spec.try_emplace_front metl.Ring.Spec.push_overwrite metl.Ring.Spec.front
    metl.Ring.Spec.at metl.Ring.Spec.pop_back metl.Ring.Spec.back
replies_test = refl

run_refines_example :
    Implements (Represents 3) (run (step 3) calls (Ring.new 3)) (run (spec_step 3) calls [])
run_refines_example =
    run_refines 3 (omega arith) (omega arith) calls (Ring.new 3) [] (new-Represents 3)
