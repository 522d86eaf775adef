-- ===== src/Vm/Heap.antt =====
-- HALLOC and HFREE of src/VM.cpp: chunks with a header of three bytes, the payload's size in two
-- and a state flag, one behind the other from `heap_start` on. The loops take fuel.
pub mod Chunks
pub mod Find
pub mod Coalesce
pub mod Release
use custom_isa_8bit_vm.Base.{
  ltb, leb, ◌==◌, if◌then◌else◌, ltb→lt, lt→ltb, le→ltb, leb→le, ==_iff, Bool-cases, length,
  get_elem?, take, drop, replicate, length-append, length-replicate, Bytes, codes, equal_iff, equal,
  ℕ, zero, suc, ◌+◌, ◌-◌, ◌*◌, ◌/◌, ◌%◌, ◌^◌, ◌≤◌, ◌<◌, ◌≡◌, refl, sym, ap, ◌∙◌, fun_ext, ◌≢◌, ◌↔◌,
  ◌⊎◌, inl, inr, Bool, true, false, not, ◌&&◌, ◌||◌, Option, none, some, List, [], ◌∷◌, ◌++◌, map,
  arith,
}
use custom_isa_8bit_vm.Vm.State.{
  ArgType, number, register, address, indirect_reg, indirect_mem, indirect_lbl, number_16, other,
  type_of_byte, byte_of_type, RawArgument, Window, uninitialised, null, opened, Output, printed,
  flushed, window_closed, waiting_for_close, returned_control, terminated_forcefully, Machine,
  Outcome, returned, thrown, undefined, timeout, M, ◌>>=◌, ◌>>◌, pure, throw, undefined_behaviour,
  get, get_process, set_pc, set_sp, print, update, read, write, word, Cell, register_cell, ram_cell,
  register_at, ram_at, load, store, framebuffer_start, gui_cell, set_gui, get_gui,
}
use custom_isa_8bit_vm.Process.{Process, to_addr}
use custom_isa_8bit_vm.Exception.{
  Exception, unknown_argument_type, stack_overflow, stack_underflow, heap_overflow,
  freed_free_region, cannot_divide_by_zero, call_non_label, label_as_number, framebuffer_not_gui,
  framebuffer_overflow, invalid_opcode,
}
use custom_isa_8bit_vm.Config.{ram_size, register_count, framebuffer_tot_size, colors}
use custom_isa_8bit_vm.Vm.Operand.{resolve_writeable_arg, fetch_argument, operand, write_arg}

-- `sizeof(MemAddr) + sizeof(HeapReg)`
abbrev pub heap_header_block_size : ℕ
heap_header_block_size = 3

-- `HeapReg::OWNED`; `FREE` is 0.
abbrev pub owned : ℕ
owned = 1

-- HALLOC once a free chunk of `dimension` bytes at `first` is large enough: split off the rest,
-- if it has room for more than a header, and own the chunk. The result is its first payload byte.
unfoldable pub take_chunk : ℕ → ℕ → ℕ → M ℕ
take_chunk size first dimension =
    if ltb (size + heap_header_block_size) dimension
    then (do
      let rest = first + heap_header_block_size + size
      let remaining_dimension = dimension - heap_header_block_size - size
      write rest (remaining_dimension / 256 % 256)
      write (rest + 1) (remaining_dimension % 256)
      write (rest + 2) 0
      write first (size / 256 % 256)
      write (first + 1) (size % 256)
      write (first + 2) owned
      pure (to_addr (first + heap_header_block_size)))
    else (do
      write first (dimension / 256 % 256)
      write (first + 1) (dimension % 256)
      write (first + 2) owned
      pure (to_addr (first + heap_header_block_size)))

-- The search of HALLOC from the chunk at `first` on.
unfoldable pub find_chunk : ℕ → ℕ → ℕ → M ℕ
unfolding take_chunk
find_chunk zero size first m = timeout
find_chunk (suc fuel) size first m =
    let next_chunk = λ (next : ℕ). find_chunk fuel size next in
    (do
      proc ← get_process
      if leb proc.heap_limit first then throw heap_overflow else (do
        high ← read first
        low ← read (first + 1)
        let dimension = high * 256 + low
        status ← read (first + 2)
        if status == owned
            then next_chunk (to_addr (first + (dimension + heap_header_block_size)))
            else if leb size dimension
            then take_chunk size first dimension
            else next_chunk (to_addr (first + (dimension + heap_header_block_size)))))
      m

-- More rounds than there are addresses.
abbrev pub heap_fuel : ℕ
heap_fuel = 2 ^ 17

-- The size is a literal of one byte, or read through a `MemCell &`.
unfoldable pub size_value : ArgType → ℕ → M ℕ
size_value number value = pure value
size_value type value = resolve_writeable_arg type value >>= load

unfoldable pub halloc : M (Unit {0})
unfolding size_value
halloc = do
  place_to_alloc ← fetch_argument
  size_to_alloc ← fetch_argument
  proc ← get_process
  size ← size_value size_to_alloc.type size_to_alloc.value
  payload ← find_chunk heap_fuel size proc.heap_start
  write_arg place_to_alloc payload

-- The loop of HFREE that merges a free chunk with a free one behind it.
unfoldable pub coalesce : ℕ → ℕ → M (Unit {0})
coalesce zero current_chunk m = timeout
coalesce (suc fuel) current_chunk m =
    let again = λ (chunk : ℕ). coalesce fuel chunk in
    (do
      proc ← get_process
      if leb proc.heap_limit current_chunk then pure tt else (do
        high ← read current_chunk
        low ← read (current_chunk + 1)
        let dimension = high * 256 + low
        status ← read (current_chunk + 2)
        let next_chunk = to_addr (current_chunk + heap_header_block_size + dimension)
        if leb proc.heap_limit next_chunk then pure tt else (do
          next_high ← read next_chunk
          next_low ← read (next_chunk + 1)
          let next_dimension = next_high * 256 + next_low
          next_status ← read (next_chunk + 2)
          if status == 0 && next_status == 0
              then (do
                let new_dimension = dimension + heap_header_block_size + next_dimension
                write current_chunk (new_dimension / 256 % 256)
                write (current_chunk + 1) (new_dimension % 256)
                again current_chunk)
              else again next_chunk)))
      m

-- The address to release: a label's as it is, any other read through a `MemCell &`.
unfoldable pub userstart : ArgType → ℕ → M ℕ
userstart address value = pure value
userstart type value = resolve_writeable_arg type value >>= load

-- HFREE behind the operand: the chunk's flag, then the merging.
unfoldable pub release : ℕ → M (Unit {0})
release start = do
  let actual_regstart = to_addr (start + 2 ^ 16 - heap_header_block_size)
  status ← read (actual_regstart + 2)
  if not (status == owned) then throw freed_free_region else (do
    write (actual_regstart + 2) 0
    proc ← get_process
    coalesce heap_fuel proc.heap_start)

unfoldable pub hfree : M (Unit {0})
unfolding userstart
hfree = do arg ← fetch_argument; start ← userstart arg.type arg.value; release start
