-- ===== src/RdmaEndpoint/Tests.antt =====
-- One device of two, and a region of huge pages of 2 MiB.
use p4app_switch_ml.Prelude.{◌^◌, ◌≡◌, refl, arith, true, none, some, ◌∷◌, [], ◌==◌, if◌then◌else◌}
use p4app_switch_ml.Outcome.{ok, crash, fatal}
use p4app_switch_ml.RdmaEndpoint.{
  Verbs, Memory, MemoryRegion, search_device, new_endpoint, check_some, log_gids, has_byte,
  allocate_at_address, round_to_pages, and_not,
}
use p4app_switch_ml.RdmaEndpoint.Pages.{Region, allocate_lem}

abbrev verbs : Verbs
verbs = record {
  device_names = some ("mlx5_0" ∷ "mlx5_1" ∷ []);
  open_device = λ i. true;
  phys_port_cnt = some 1;
  query_port = λ port. some (record { gid_tbl_len = 4 });
  query_gid = λ port i. some (λ byte. if byte == 15 then i else 0);
  alloc_pd = true;
  rdtsc_start = 5;
  rdtsc_end = 1005;
}

second_device : search_device 2 "mlx5_1" 0 ("mlx5_0" ∷ "mlx5_1" ∷ []) none ≡ some 1
unfolding search_device
second_device = refl

-- Address 0 of this port is all zeros.
zero_address : new_endpoint verbs "mlx5_1" 1 0 ≡ crash fatal
unfolding new_endpoint check_some search_device log_gids has_byte
zero_address = refl

no_device : new_endpoint verbs "mlx5_2" 1 3 ≡ crash fatal
unfolding new_endpoint check_some search_device
no_device = refl

abbrev memory : Memory
memory = record { hugepagesize = 2 ^ 21; mmap = λ at size. some at; reg_mr = λ at size. true }

one_page :
    allocate_at_address memory 17592186044416 258048
    ≡ ok (record { addr = 17592186044416; length = 2 ^ 21 })
unfolding allocate_at_address round_to_pages and_not check_some
one_page = refl

allocate_lem_example :
    (r : MemoryRegion) × (allocate_at_address memory 17592186044416 258048 ≡ ok r)
    × Region (2 ^ 21) 258048 17592186044416 r
allocate_lem_example =
    allocate_lem memory 21 17592186044416 258048 refl (omega arith) (λ size. refl) (λ size. refl)
