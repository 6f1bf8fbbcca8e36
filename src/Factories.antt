-- ===== src/Factories.antt =====
-- dev_root/client_lib/src/backend.cc, scheduler.cc and prepostprocessor.cc, the three `CreateInstance`: the
-- kind of object that they make for the names in the configuration.
use Prim.Native.String.{String}
use text.Mathlib.Text.{◌==◌ as str_eq}
use p4app_switch_ml.Prelude.{Bool, true, false, ◌≡◌, refl, if◌then◌else◌}
use p4app_switch_ml.Outcome.{Outcome, ok, crash, fatal}
use p4app_switch_ml.Config.{Features}

pub data BackendKind : Type 0 where
  dummy_backend rdma_backend dpdk_backend : BackendKind

pub data SchedulerKind : Type 0 where
  fifo_scheduler : SchedulerKind

pub data PppKind : Type 0 where
  cpu_exponent_quantizer_ppp bypass_ppp : PppKind

abbrev compiled : Bool → BackendKind → Outcome BackendKind
compiled true kind = ok kind
compiled false kind = crash fatal

unfoldable pub create_backend : Features → String → Outcome BackendKind
create_backend f backend =
    if str_eq backend "dummy"
    then compiled f.dummy dummy_backend
    else (if str_eq backend "rdma"
        then compiled f.rdma rdma_backend
        else (if str_eq backend "dpdk" then compiled f.dpdk dpdk_backend else crash fatal))

unfoldable pub create_scheduler : String → Outcome SchedulerKind
create_scheduler scheduler = if str_eq scheduler "fifo" then ok fifo_scheduler else crash fatal

unfoldable pub create_ppp : String → Outcome PppKind
create_ppp ppp =
    if str_eq ppp "cpu_exponent_quantizer"
    then ok cpu_exponent_quantizer_ppp
    else (if str_eq ppp "bypass" then ok bypass_ppp else crash fatal)

-- The name of a backend in a configuration, and whether the library was compiled with it.
abbrev pub name_of : BackendKind → String
name_of dummy_backend = "dummy"
name_of rdma_backend = "rdma"
name_of dpdk_backend = "dpdk"

abbrev pub built : Features → BackendKind → Bool
built f dummy_backend = f.dummy
built f rdma_backend = f.rdma
built f dpdk_backend = f.dpdk

compiled_lem :
    (b : Bool) (kind : BackendKind) → compiled b kind ≡ (if b then ok kind else crash fatal)
compiled_lem true kind = refl
compiled_lem false kind = refl

-- For the name of each backend, CreateInstance makes that backend where the library was compiled with it,
-- and ends the process where it was not.
pub create_backend-name_of :
    (f : Features) (kind : BackendKind)
    → create_backend f (name_of kind) ≡ (if built f kind then ok kind else crash fatal)
unfolding create_backend
create_backend-name_of f dummy_backend = compiled_lem f.dummy dummy_backend
create_backend-name_of f rdma_backend = compiled_lem f.rdma rdma_backend
create_backend-name_of f dpdk_backend = compiled_lem f.dpdk dpdk_backend
