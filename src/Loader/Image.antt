-- ===== src/Loader/Image.antt =====
-- The RAM and the process behind `load_program` of include/Loader.hpp.
use custom_isa_8bit_vm.Base.{
  ◌==◌, length, Bytes, ℕ, zero, suc, ◌+◌, ◌/◌, ◌%◌, ◌^◌, ◌≤◌, ◌<◌, ◌≡◌, refl, ap, ◌∙◌, false, List,
  [], ◌∷◌, arith,
}
use custom_isa_8bit_vm.Vm.State.{Machine, returned, update, word, gui_cell, get_gui}
use custom_isa_8bit_vm.Process.{Process, to_addr}
use custom_isa_8bit_vm.Exception.{
  Exception, unknown_argument_type, stack_overflow, stack_underflow, heap_overflow,
  freed_free_region, cannot_divide_by_zero, call_non_label, label_as_number, framebuffer_not_gui,
  framebuffer_overflow, invalid_opcode,
}
use custom_isa_8bit_vm.Config.{ram_size}
use custom_isa_8bit_vm.Exception
use custom_isa_8bit_vm.Process.{process}
use custom_isa_8bit_vm.MemoryManager.{MemoryBlock, allocate}
use custom_isa_8bit_vm.MemoryManager.View.{program_ram}
use custom_isa_8bit_vm.Vm.Stack.Contents.{slice, top, IsStack}
use custom_isa_8bit_vm.Vm.Heap.Chunks.{chunk, Chunks}
use custom_isa_8bit_vm.Loader.{load_program, allocate_region, copy_bytes, write_heap_header}
use custom_isa_8bit_vm.Vm.Effects.{write_lem, write_then, read_then, bind_lem}

-- The RAM with the bytes from `a` on.
unfoldable pub written : (ℕ → ℕ) → ℕ → Bytes → ℕ → ℕ
written f a [] = f
written f a (b ∷ bs) = written (update f a (b % 256)) (suc a) bs

abbrev pub AllBytes : Bytes → Type 0
AllBytes [] = Unit
AllBytes (b ∷ bs) = (b < 256) × AllBytes bs

written-before : (f : ℕ → ℕ) (a : ℕ) (bs : Bytes) (x : ℕ) → x < a → written f a bs x ≡ f x
unfolding written
written-before f a [] x h = refl
written-before f a (b ∷ bs) x h =
    written-before (update f a (b % 256)) (suc a) bs x (omega arith) ∙ ground arith

written-after :
    (f : ℕ → ℕ) (a : ℕ) (bs : Bytes) (x : ℕ) → a + length bs ≤ x → written f a bs x ≡ f x
unfolding written
written-after f a [] x h = refl
written-after f a (b ∷ bs) x h =
    written-after (update f a (b % 256)) (suc a) bs x (omega arith) ∙ ground arith

slice-written :
    (f : ℕ → ℕ) (a : ℕ) (bs : Bytes) → AllBytes bs → slice (written f a bs) a (length bs) ≡ bs
unfolding written slice
slice-written f a [] h = refl
slice-written f a (b ∷ bs) h =
    let first : written (update f a (b % 256)) (suc a) bs a ≡ b =
      written-before (update f a (b % 256)) (suc a) bs a (omega arith) ∙ ground arith in
    rw (first, slice-written (update f a (b % 256)) (suc a) bs h.1)

copy_bytes-written :
    (a : ℕ) (bs : Bytes) (m : Machine)
    → a + length bs ≤ ram_size
    → copy_bytes a bs m ≡ returned tt (record m { ram = written m.ram a bs })
unfolding copy_bytes written
copy_bytes-written a [] m h = refl
copy_bytes-written a (b ∷ bs) m h =
    write_then a b _ m (omega arith) ∙ copy_bytes-written (suc a) bs _ (omega arith)

-- The header that `load_program` writes behind the program.
abbrev pub with_header : (ℕ → ℕ) → ℕ → ℕ → ℕ
with_header f a =
    update (update (update f a (1000 / 256 % 256 % 256)) (a + 1) (1000 % 256 % 256)) (a + 2)
      (0 % 256)

write_heap_header_lem :
    (a : ℕ) (m : Machine)
    → a + 3 ≤ ram_size
    → write_heap_header a m ≡ returned tt (record m { ram = with_header m.ram a })
unfolding write_heap_header
write_heap_header_lem a m h =
    write_then a _ _ m (omega arith)
    ∙ write_then (a + 1) _ _ _ (omega arith)
    ∙ write_lem (a + 2) _ _ (omega arith)

-- What is true once `bytecode` is loaded at `start`.
pub record Loaded (bytecode : Bytes) (start : ℕ) (blocks : List MemoryBlock) (m : Machine)
    : Type 0 where
  pub proc : Process
  pub after : Machine
  pub same : load_program bytecode m ≡ returned proc after
  -- The process, built for the region and the entry address in the first two bytes.
  pub proc_is :
      proc
      ≡ process m.next_ready_pid start
          (length bytecode)
          (word (after.ram start) (after.ram (start + 1)))
  -- The code stands at the region's start, and behind it the heap is one free chunk.
  pub code : slice after.ram start (length bytecode) ≡ bytecode
  pub heap : Chunks proc.heap_limit after.ram proc.heap_start (chunk 1000 false ∷ [])
  -- The stack is empty and within its bounds.
  pub stack : IsStack proc
  pub empty : top proc ≡ proc.sp
  pub blocks_are : after.free_list ≡ blocks
  -- The mode stays.
  pub gui_kept : get_gui after ≡ get_gui m

module _ (bytecode : Bytes) (start : ℕ) (blocks : List MemoryBlock) (m : Machine) where
  abbrev pub size : ℕ
  size = length bytecode

  abbrev pub copied : Machine
  copied = record m { free_list = blocks; ram = written m.ram start bytecode }

  abbrev pub entry : ℕ
  entry = word (copied.ram start) (copied.ram (start + 1))

  abbrev pub after : Machine
  after = record copied {
    next_ready_pid = (m.next_ready_pid + 1) % 2 ^ 32;
    ram = with_header copied.ram (start + size);
  }

  module _ (bytes : AllBytes bytecode) (two : 2 ≤ size)
      (taken : allocate (size + 1000 + 1000) m.free_list ≡ Exception.ok (start, blocks))
      (room : start + (size + 1000 + 1000) ≤ program_ram) where
    allocate_region-start :
        allocate_region (size + 1000 + 1000) m ≡ returned start (record m { free_list = blocks })
    unfolding allocate_region
    allocate_region-start = rw (taken, allocate_region)

    pub load_program-after :
        load_program bytecode m ≡ returned (process m.next_ready_pid start size entry) after
    unfolding load_program
    load_program-after =
        bind_lem (allocate_region (size + 1000 + 1000)) _ m allocate_region-start
        ∙ bind_lem (copy_bytes start bytecode) _ (record m { free_list = blocks })
            (copy_bytes-written start bytecode _ (omega arith))
        ∙ read_then start _ copied (omega arith)
        ∙ read_then (start + 1) _ copied (omega arith)
        ∙ bind_lem (write_heap_header (start + size)) _
            (record copied { next_ready_pid = (m.next_ready_pid + 1) % 2 ^ 32 })
            (write_heap_header_lem (start + size) _ (omega arith))

    pub header_off : (x : ℕ) → x < start + size → after.ram x ≡ copied.ram x
    header_off x h = ground arith

    slice_same :
        (f g : ℕ → ℕ) (a n : ℕ) → ((x : ℕ) → x < a + n → f x ≡ g x) → slice f a n ≡ slice g a n
    unfolding slice
    slice_same f g a zero e = refl
    slice_same f g a (suc n) e =
        ground (arith, e a (omega arith), slice_same f g (suc a) n (λ x h. e x (omega arith)))

    pub code_stands : slice after.ram start size ≡ bytecode
    code_stands =
        slice_same after.ram copied.ram start size header_off
        ∙ slice-written m.ram start bytecode bytes

    pub gui_byte : after.ram gui_cell ≡ m.ram gui_cell
    gui_byte =
        let behind : copied.ram gui_cell ≡ m.ram gui_cell =
          written-after m.ram start bytecode gui_cell (omega arith) in
        ground arith

    -- Loading a program of at least two bytes for which the memory manager gives a region of the
    -- shared RAM returns a process for that region with the entry address of the first two bytes; the
    -- code stands at the region's start, the heap is one free chunk of 1000 bytes that ends 3 bytes
    -- behind the heap's limit, the stack is empty, and the mode is as it was.
    pub load_program-Loaded : Loaded bytecode start blocks m
    unfolding process get_gui
    load_program-Loaded =
        let heap_start : to_addr (start + size) ≡ start + size = omega arith in
        let heap_limit : to_addr (start + size + 1000) ≡ start + size + 1000 = omega arith in
        let sp : to_addr (start + (size + 1000 + 1000)) ≡ start + (size + 1000 + 1000) =
          omega arith in
        record {
          proc = process m.next_ready_pid start size entry;
          after = after;
          same = load_program-after;
          proc_is = rw (header_off start (omega arith), header_off (start + 1) (omega arith));
          code = code_stands;
          heap = rw (heap_start, heap_limit) (omega arith, ground arith, omega arith);
          stack = rw sp (omega arith);
          empty = rw sp;
          blocks_are = refl;
          gui_kept = ap (λ b. b == 1) gui_byte;
        }
