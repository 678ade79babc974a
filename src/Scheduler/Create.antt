-- ===== src/Scheduler/Create.antt =====
-- src/env.c: the new environment.
use simpyc.Prelude.{refl, [], arith, Double}
use simpyc.Heap.{Cells, heap_init}
use simpyc.Heap.Queue.{heap_init-IsValidHeap}
use simpyc.Heap.Contents.{count}
use simpyc.Event.Validity.{IsValid}
use simpyc.Scheduler.{sim_env_create}

module _ {D : Type 0} ⦃F : Double D⦄ where
  -- A new environment is valid, whatever the memory of its heap holds.
  pub sim_env_create-IsValid : (junk : Cells D) → IsValid (sim_env_create junk)
  unfolding sim_env_create heap_init count
  sim_env_create-IsValid junk = record {
    heap = heap_init-IsValidHeap junk;
    counted = omega arith;
    clock = (F.zero_number, F.lt_irrefl F.zero);
    on_time = refl;
    seq_unused = λ s h. refl;
    seq_once = λ s. omega arith;
    exact = λ e. refl;
    untouched = λ e h. refl;
    pool = [];
    chain = tt;
    distinct = tt;
    retired = tt;
  }
