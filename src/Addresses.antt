-- ===== src/Addresses.antt =====
-- dev_root/client_lib/src/backends/rdma/rdma_utils.h and dev_root/client_lib/src/backends/dpdk/dpdk_utils.cc:
-- addresses as numbers. `ibv_gid` is the 16 bytes of the union that ibverbs declares, on a
-- little-endian host. The bytes that `|` joins are disjoint, so that it is a sum.
pub mod RoundTrips
use p4app_switch_ml.Prelude.{ℕ, ◌+◌, ◌-◌, ◌*◌, ◌/◌, ◌%◌, ◌^◌, if◌then◌else◌, ◌==◌, update}

-- `raw`, by index.
abbrev pub Gid : Type 0
Gid = ℕ → ℕ

-- `b ^ 2`.
unfoldable pub flip_second_bit : ℕ → ℕ
flip_second_bit b = if b / 2 % 2 == 0 then b + 2 else b - 2

unfoldable pub gid_to_ipv4 : Gid → ℕ
gid_to_ipv4 raw = ((raw 12 * 256 + raw 13) * 256 + raw 14) * 256 + raw 15

unfoldable pub gid_to_mac : Gid → ℕ
unfolding flip_second_bit
gid_to_mac raw =
    ((((flip_second_bit (raw 8) * 256 + raw 9) * 256 + raw 10) * 256 + raw 13) * 256 + raw 14) * 256
    + raw 15

-- `subnet_prefix` and an `interface_id` of zero: bytes 0 to 7, and 8 to 15.
unfoldable pub new_gid : ℕ → Gid
new_gid subnet_prefix i = if i / 8 == 0 then subnet_prefix / 256 ^ i % 256 else 0

unfoldable pub ipv4_to_gid : ℕ → Gid
unfolding new_gid
ipv4_to_gid ip =
    let prefix = update (update (new_gid 0) 10 255) 11 255 in
    update
      (update (update (update prefix 12 (ip / 2 ^ 24 % 256)) 13 (ip / 2 ^ 16 % 256)) 14
        (ip / 2 ^ 8 % 256))
      15 (ip % 256)

unfoldable pub mac_to_gid : ℕ → Gid
unfolding new_gid flip_second_bit
mac_to_gid mac =
    let upper =
      update
        (update (update (new_gid 33022) 8 (flip_second_bit (mac / 2 ^ 40 % 256))) 9
          (mac / 2 ^ 32 % 256))
        10 (mac / 2 ^ 24 % 256) in
    let marked = update (update upper 11 255) 12 254 in
    update (update (update marked 13 (mac / 2 ^ 16 % 256)) 14 (mac / 2 ^ 8 % 256)) 15 (mac % 256)

-- `ChangeMacEndianness`.
unfoldable pub change_mac_endianness : ℕ → ℕ
change_mac_endianness mac =
    mac % 256 * 2 ^ 40
    + mac / 2 ^ 8 % 256 * 2 ^ 32
    + mac / 2 ^ 16 % 256 * 2 ^ 24
    + mac / 2 ^ 24 % 256 * 2 ^ 16
    + mac / 2 ^ 32 % 256 * 2 ^ 8
    + mac / 2 ^ 40 % 256
