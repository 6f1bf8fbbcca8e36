-- ===== src/Addresses/RoundTrips.antt =====
-- The conversions of addresses of rdma_utils.h and dpdk_utils.cc, one after the other.
use p4app_switch_ml.Prelude.{ℕ, ◌/◌, ◌%◌, ◌^◌, ◌<◌, ◌≡◌, arith, u32_mod}
use p4app_switch_ml.Addresses.{
  flip_second_bit, gid_to_ipv4, gid_to_mac, ipv4_to_gid, mac_to_gid, change_mac_endianness,
}

-- The IPv4 address of the GID made from a 32-bit IPv4 address is that address.
pub gid_to_ipv4-ipv4_to_gid : (ip : ℕ) → ip < u32_mod → gid_to_ipv4 (ipv4_to_gid ip) ≡ ip
unfolding gid_to_ipv4 ipv4_to_gid
gid_to_ipv4-ipv4_to_gid ip h = omega (arith, h)

flip-flip : (b : ℕ) → flip_second_bit (flip_second_bit b) ≡ b
unfolding flip_second_bit
flip-flip b = ground arith

-- The MAC address of the GID made from a number is its low 48 bits.
pub gid_to_mac-mac_to_gid : (mac : ℕ) → gid_to_mac (mac_to_gid mac) ≡ mac % 2 ^ 48
unfolding gid_to_mac mac_to_gid
gid_to_mac-mac_to_gid mac = rw (flip-flip (mac / 2 ^ 40 % 256)) (omega arith)

-- Changing the byte order of a MAC address twice gives it back, without the two most significant bytes.
pub change_mac_endianness-twice :
    (mac : ℕ) → change_mac_endianness (change_mac_endianness mac) ≡ mac % 2 ^ 48
unfolding change_mac_endianness
change_mac_endianness-twice mac = omega arith
