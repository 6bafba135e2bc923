-- ===== src/Examples/Bits.antt =====
-- The bit operations and the condition field at concrete words.
use l3_info_simulateur_arm.Base.{arith}
use l3_info_simulateur_arm.Util.{get_bit}
use l3_info_simulateur_arm.Condition.Laws.{IsCompared, CodesMean, condition_of_compared}
use l3_info_simulateur_arm.Examples.{status}

equal-IsCompared : IsCompared 5 5 status
unfolding get_bit
equal-IsCompared = ground arith

condition_of_compared_example : CodesMean 5 5 status
condition_of_compared_example =
    condition_of_compared 5 5 status (omega arith) (omega arith) equal-IsCompared
