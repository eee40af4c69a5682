-- ===== src/Sched/Vm/Tests.antt =====
-- A caller of sys_page_map that maps a page of another's choice, and a caller of sys_page_alloc.
use tps_sistemas_operativos.Base.{
  ℕ, ◌+◌, ◌*◌, ◌/◌, ◌<◌, ◌≡◌, ◌⊎◌, refl, arith, false, none, some, List, [], or_bits, or32,
  and_bits, and32, true,
}
use tps_sistemas_operativos.Sched.Env.{envid2env}
use tps_sistemas_operativos.Sched.Pages.{e_no_mem, pgnum}
use tps_sistemas_operativos.Sched.Pages.Space.{mapping}
use tps_sistemas_operativos.Sched.Pages.Samples.{kinds, free_pages, sample, sample-Sound}
use tps_sistemas_operativos.Sched.Vm.{Vm, check_perm, sys_page_alloc, sys_page_map}
use tps_sistemas_operativos.Sched.Vm.Grants.{sys_page_map_any_page}
use tps_sistemas_operativos.Sched.Vm.PageAlloc.{Allocates, sys_page_alloc-Allocates}

abbrev vm : Vm
vm = record {
  kernel = record {
    envs = [];
    env_free_list = none;
    curenv = some 0;
    halted = false;
    total_tickets = 0;
    prev_random = 0;
    sched_calls = 0;
    boost_calls = 0;
    timer_int_counter = 0;
  };
  memory = sample;
  pgdirs = λ i. 1;
}

maps_four : mapping sample 1 0 ≡ 16391
unfolding mapping
maps_four = refl

few_refs : (sample.pages (pgnum (mapping sample 1 0))).pp_ref < 65535
unfolding mapping
few_refs = omega arith

-- Page 4 is the caller's; with the bits of 3 it is page 7.
sys_page_map_any_page_example :
    ◌≡◌ {A = List ℕ} free_pages [] × (sys_page_map 0 0 0 8192 (3 * 4096) vm ≡ some (e_no_mem, vm))
    ⊎ ((vm' : Vm) × (sys_page_map 0 0 0 8192 (3 * 4096) vm ≡ some (0, vm'))
        × (mapping (vm'.memory) 1 8192 ≡ or_bits 20 (mapping sample 1 0 / 4096) 3 * 4096 + 5))
sys_page_map_any_page_example =
    sys_page_map_any_page vm free_pages sample-Sound 0 0 8192 3 refl refl (omega arith) refl
      (omega arith) refl (omega arith) (λ z. omega (arith, z, maps_four)) few_refs

writable_bits : or32 2 5 ≡ 7
unfolding or32 or_bits
writable_bits = refl

writable_allowed : check_perm (or32 2 5) ≡ true
unfolding check_perm or32 and32 and_bits or_bits
writable_allowed = refl

sys_page_alloc-Allocates_example :
    Allocates vm (λ p. 0) kinds free_pages 0 8192 (or32 2 5) (sys_page_alloc 0 8192 2 vm)
unfolding envid2env
sys_page_alloc-Allocates_example =
    sys_page_alloc-Allocates vm free_pages 0 0 8192 2 sample-Sound refl refl (omega arith) refl
      writable_allowed (omega (arith, writable_bits))
