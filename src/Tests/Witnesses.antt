-- ===== src/Tests/Witnesses.antt =====
-- The theorems on the machine, applied to concrete machines.
use custom_isa_8bit_vm.Base.{◌+◌, ◌≤◌, ℕ, ◌≡◌, refl, true, false, [], ◌∷◌, arith}
use custom_isa_8bit_vm.Exception.{stack_overflow, stack_underflow, freed_free_region}
use custom_isa_8bit_vm.Tests.Machines.{
  quiet, twenty_bytes, rest_of_ram, machine, zeros, one_chunk, two_chunks,
}
use custom_isa_8bit_vm.Vm.State.{address, returned, thrown, update, load, ram_at, register_at}
use custom_isa_8bit_vm.Vm.Effects.{in_register}
use custom_isa_8bit_vm.Vm.Invariant.Rules.{IsMachine, Ensures}
use custom_isa_8bit_vm.Vm.Invariant.Run.{exec-Keeps}
use custom_isa_8bit_vm.Vm.Heap.{find_chunk, heap_fuel, release}
use custom_isa_8bit_vm.Vm.Heap.Chunks.{chunk, first_fit, merge}
use custom_isa_8bit_vm.Vm.Heap.Find.{Found, find_chunk-heap}
use custom_isa_8bit_vm.Vm.Heap.Coalesce.{Merged, IsMerged, extent}
use custom_isa_8bit_vm.Vm.Heap.Release.{cleared, end_of, release-merge, release-double_free}
use custom_isa_8bit_vm.Vm.Operand.{resolve_writeable_arg}
use custom_isa_8bit_vm.Vm.Stack.{spush, spop, push_value}
use custom_isa_8bit_vm.Vm.Stack.Contents.{slice, contents, IsStack}
use custom_isa_8bit_vm.Vm.Stack.Push.{Pushed, spush_word, spush_overflow}
use custom_isa_8bit_vm.Vm.Stack.Pop.{spop_register, spop_underflow, popped}
use custom_isa_8bit_vm.Vm.Exec.{exec}

machine-IsMachine : IsMachine (twenty_bytes 2020) rest_of_ram (machine zeros 2020)
machine-IsMachine = record {
  ram_bytes = λ a. omega arith;
  register_bytes = λ i. omega arith;
  key = omega arith;
  pc_address = omega arith;
  sp_address = omega arith;
  region = record {
    pid = refl;
    first_sector = refl;
    last_code_sector = refl;
    entry_point = refl;
    allocated_memory = refl;
    heap_start = refl;
    stack_limit = refl;
    heap_limit = refl;
  };
  blocks_kept = refl;
}

exec-Keeps_example :
    Ensures (IsMachine (twenty_bytes 2020) rest_of_ram) (exec quiet 30 (machine zeros 2020))
exec-Keeps_example =
    exec-Keeps (twenty_bytes 2020) rest_of_ram quiet 30 (machine zeros 2020) machine-IsMachine

find_chunk-heap_example :
    Found 1020 7 20
      (machine one_chunk 2020)
      (first_fit 7 20 (chunk 1000 false ∷ []))
      (find_chunk heap_fuel 7 20 (machine one_chunk 2020))
find_chunk-heap_example =
    find_chunk-heap 7 (machine one_chunk 2020) (chunk 1000 false ∷ []) (omega arith)
      (omega arith, record { high = refl; low = refl; state = refl }, refl)

release-merge_example :
    Merged 1020 20
      (cleared (machine two_chunks 2020) [])
      (merge (chunk 10 false ∷ chunk 987 false ∷ []))
      (release (end_of 20 [] + 3) (machine two_chunks 2020))
    × IsMerged (merge (chunk 10 false ∷ chunk 987 false ∷ []))
    × (extent (merge (chunk 10 false ∷ chunk 987 false ∷ []))
        ≡ extent (chunk 10 true ∷ chunk 987 false ∷ []))
release-merge_example =
    release-merge (machine two_chunks 2020) (chunk 10 true) [] (chunk 987 false ∷ []) (omega arith)
      (
        omega arith,
        record { high = refl; low = refl; state = refl },
        (omega arith, record { high = refl; low = refl; state = refl }, refl),
      )
      refl

release-double_free_example :
    release (end_of 20 (chunk 10 true ∷ []) + 3) (machine two_chunks 2020)
    ≡ thrown freed_free_region (machine two_chunks 2020)
release-double_free_example =
    release-double_free (machine two_chunks 2020) (chunk 987 false) (chunk 10 true ∷ []) []
      (omega arith)
      (
        omega arith,
        record { high = refl; low = refl; state = refl },
        (omega arith, record { high = refl; low = refl; state = refl }, refl),
      )
      refl

IsStack-at : (sp : ℕ) → 1020 ≤ sp → sp ≤ 2020 → IsStack (twenty_bytes sp)
IsStack-at sp h k = record { above_limit = h; below_top = k; in_ram = omega arith }

spush_word_example :
    Pushed
      (machine zeros 2020)
      (0 ∷ 0 ∷ [])
      (spush (record { type = address; value = 50 }) (machine zeros 2020))
unfolding push_value resolve_writeable_arg ram_at load
spush_word_example =
    spush_word (machine zeros 2020) (IsStack-at 2020 (omega arith) (omega arith))
      (record { type = address; value = 50 }) 0 refl refl (omega arith)

spush_overflow_example :
    spush (in_register 1) (machine zeros 1020)
    ≡ thrown stack_overflow (record (machine zeros 1020) { process = twenty_bytes 1019 })
unfolding push_value resolve_writeable_arg register_at load
spush_overflow_example =
    spush_overflow (machine zeros 1020) (IsStack-at 1020 (omega arith) (omega arith))
      (in_register 1) 0 refl (omega arith) (omega arith) (omega arith)

spop_register_example :
    (spop (in_register 2) (machine (update zeros 2019 7) 2019)
      ≡ returned tt (popped (machine (update zeros 2019 7) 2019) 2 7))
    × (contents (popped (machine (update zeros 2019 7) 2019) 2 7) ≡ [])
    × IsStack (popped (machine (update zeros 2019 7) 2019) 2 7).process
unfolding contents slice
spop_register_example =
    spop_register (machine (update zeros 2019 7) 2019) (IsStack-at 2019 (omega arith) (omega arith))
      2 7 [] (omega arith) (omega arith) (omega arith) refl

spop_underflow_example :
    spop (in_register 2) (machine zeros 2020) ≡ thrown stack_underflow (machine zeros 2020)
unfolding contents slice
spop_underflow_example =
    spop_underflow (machine zeros 2020) (IsStack-at 2020 (omega arith) (omega arith))
      (in_register 2) refl
