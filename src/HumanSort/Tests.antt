-- ===== src/HumanSort/Tests.antt =====
-- include/human_sort.hpp on concrete texts.
use crow_core.Common.{codes, some, true, pos, negsuc, scan_digits, ◌≡◌, refl}
use crow_core.HumanSort.{
  difference, simple_is_digit, number_at, comp_loop, alphanum_comp, alphanum_less,
}
use crow_core.HumanSort.Order.{opposite_result, opposite-alphanum_comp}

comparing : Unit {0}
unfolding alphanum_less alphanum_comp comp_loop number_at simple_is_digit difference scan_digits
comparing = tt

comp_tests :
    (alphanum_comp (codes "eth2") (codes "eth10") ≡ some (negsuc 7))
    × (alphanum_comp (codes "a01") (codes "a1") ≡ some (pos 0))
    × (alphanum_less (codes "1a") (codes "a1") ≡ some true)
    × (alphanum_comp (codes "a") (codes "a1") ≡ some (negsuc 0))
    × (alphanum_comp (codes "a99999999999") (codes "a1") ≡ some (negsuc 0))
unfolding comparing
comp_tests = (refl, refl, refl, refl, refl)

opposite-alphanum_comp_example :
    opposite_result (alphanum_comp (codes "eth2") (codes "eth10"))
    ≡ alphanum_comp (codes "eth10") (codes "eth2")
opposite-alphanum_comp_example = opposite-alphanum_comp (codes "eth2") (codes "eth10")
