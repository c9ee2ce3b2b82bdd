-- ===== src/Ip/Tests.antt =====
-- utils/ip_utils.hpp on concrete addresses and masks.
use crow_core.Common.{
  codes, some, none, true, false, ◌≡◌, refl, signed_of, skip_spaces, digits_of, scan_digits,
}
use crow_core.Ip.{
  split_dots, c_str, read_byte, count_bits, mask_byte, mask_loop, verify_loop, ipv4_bitcount,
  ipv4_verify_ip,
}
use crow_core.Ip.Masks.{Reads, ipv4_bitcount-Reads}

reading : Unit {0}
unfolding split_dots read_byte c_str signed_of skip_spaces digits_of scan_digits count_bits
    mask_byte mask_loop verify_loop ipv4_bitcount ipv4_verify_ip
reading = tt

ip_tests :
    (ipv4_bitcount (codes "255.255.254.0") ≡ some 23)
    × (ipv4_bitcount (codes "255.0.255.0") ≡ none)
    × (ipv4_bitcount (codes "255.253.0.0") ≡ none)
    × (ipv4_bitcount (codes "255.255.0") ≡ none)
    × (ipv4_bitcount (codes "0.0.0.0") ≡ some 0)
    × (ipv4_verify_ip (codes "10.0.2.15") ≡ true)
    × (ipv4_verify_ip (codes "10.0..15") ≡ false)
    × (ipv4_verify_ip (codes "10.0.256.1") ≡ false)
    × (ipv4_verify_ip (codes "10. 0.+2.-0") ≡ true)
unfolding reading
ip_tests = (refl, refl, refl, refl, refl, refl, refl, refl, refl)

mask_is_counted : ipv4_bitcount (codes "255.255.254.0") ≡ some 23
unfolding reading
mask_is_counted = refl

ipv4_bitcount-Reads_example : Reads (split_dots (codes "255.255.254.0")) 23
ipv4_bitcount-Reads_example = ipv4_bitcount-Reads (codes "255.255.254.0") 23 mask_is_counted
