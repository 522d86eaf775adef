-- ===== src/Vm/Framebuffer.antt =====
-- FBSET, FBSYNC and INPUT of src/VM.cpp.
pub mod Sync
pub mod Pixel
use custom_isa_8bit_vm.Base.{
  ltb, leb, ◌==◌, if◌then◌else◌, ltb→lt, lt→ltb, le→ltb, leb→le, ==_iff, Bool-cases, length,
  get_elem?, take, drop, replicate, length-append, length-replicate, Bytes, codes, equal_iff, equal,
  ℕ, zero, suc, ◌+◌, ◌-◌, ◌*◌, ◌/◌, ◌%◌, ◌^◌, ◌≤◌, ◌<◌, ◌≡◌, refl, sym, ap, ◌∙◌, fun_ext, ◌≢◌, ◌↔◌,
  ◌⊎◌, inl, inr, Bool, true, false, not, ◌&&◌, ◌||◌, Option, none, some, List, [], ◌∷◌, ◌++◌, map,
  arith,
}
use custom_isa_8bit_vm.Vm.State.{
  ArgType, number, register, address, indirect_reg, indirect_mem, indirect_lbl, number_16, other,
  type_of_byte, byte_of_type, RawArgument, Window, uninitialised, null, opened, Output, printed,
  flushed, window_closed, waiting_for_close, returned_control, terminated_forcefully, Machine,
  Outcome, returned, thrown, undefined, timeout, M, ◌>>=◌, ◌>>◌, pure, throw, undefined_behaviour,
  get, get_process, set_pc, set_sp, print, update, read, write, word, Cell, register_cell, ram_cell,
  register_at, ram_at, load, store, framebuffer_start, gui_cell, set_gui, get_gui,
}
use custom_isa_8bit_vm.Process.{Process, to_addr}
use custom_isa_8bit_vm.Exception.{
  Exception, unknown_argument_type, stack_overflow, stack_underflow, heap_overflow,
  freed_free_region, cannot_divide_by_zero, call_non_label, label_as_number, framebuffer_not_gui,
  framebuffer_overflow, invalid_opcode,
}
use custom_isa_8bit_vm.Config.{ram_size, register_count, framebuffer_tot_size, colors}
use custom_isa_8bit_vm.Vm.Operand.{resolve_writeable_arg, fetch_argument, operand, write_arg}
use custom_isa_8bit_vm.Vm.Host.{Host, call_host, has_window}
use custom_isa_8bit_vm.Base.{to_byte, ℤ}

-- The two bytes at `a`, as a pixel index.
abbrev pub is_label : ArgType → Bool
is_label indirect_lbl = true
is_label _ = false

unfoldable pub read_word : ℕ → M ℕ
read_word a = do hi ← read a; lo ← read (a + 1); pure (word hi lo)

-- `final_pixel_index`; it stays 0 for the types that no test names.
unfoldable pub pixel_of : ArgType → ℕ → M ℕ
unfolding read_word
pixel_of number value = pure value
pixel_of number_16 value = pure value
pixel_of register value = do
  hi ← resolve_writeable_arg register value >>= load
  lo ← resolve_writeable_arg register (to_addr (value + 1)) >>= load
  pure (word hi lo)
pixel_of indirect_reg value = do
  proc ← get_process
  base_addr ← register_at value >>= load
  read_word (to_addr (proc.first_sector + base_addr))
pixel_of indirect_mem value = do proc ← get_process; read_word (to_addr (proc.first_sector + value))
pixel_of address value = do proc ← get_process; read_word (to_addr (proc.first_sector + value))
pixel_of indirect_lbl value = pure 0
pixel_of (other b) value = pure 0

unfoldable pub color_of : ArgType → ℕ → M ℕ
color_of number value = pure value
color_of type value = resolve_writeable_arg type value >>= load

-- FBSET behind the two fetches. The bound is tested on the operand, not on the index read.
unfoldable pub set_pixel : RawArgument → RawArgument → M (Unit {0})
unfolding pixel_of color_of get_gui
set_pixel pixel_index pixel_color = do
  m ← get
  if is_label pixel_index.type
      then throw label_as_number
      else if not (get_gui m)
      then throw framebuffer_not_gui
      else (do
        final_pixel_index ← pixel_of pixel_index.type pixel_index.value
        color ← color_of pixel_color.type pixel_color.value
        if leb framebuffer_tot_size pixel_index.value
            then throw framebuffer_overflow
            else write (framebuffer_start + final_pixel_index) color)

unfoldable pub fbset : M (Unit {0})
unfolding set_pixel
fbset = do
  pixel_index ← fetch_argument
  pixel_color ← fetch_argument
  set_pixel pixel_index pixel_color

-- `COLORS[color_index]`
unfoldable pub color_at : ℕ → M ℕ
color_at color_index m = elim (get_elem? colors color_index) [
  | none ↦ undefined
  | some color ↦ returned color m
]

-- The loop of FBSYNC over the pixels from `i` on, of which `n` are left.
unfoldable pub convert : ℕ → ℕ → M (Unit {0})
unfolding color_at
convert zero i = pure tt
convert (suc n) i = do
  color_index ← read (framebuffer_start + i)
  color ← color_at color_index
  (λ m. returned tt (record m { display = update m.display i color }))
  convert n (suc i)

unfoldable pub fbsync : Host → M (Unit {0})
unfolding convert call_host
fbsync host = do
  convert framebuffer_tot_size 0
  _ ← call_host host
  state_ok ← call_host host
  if state_ok then pure tt else print window_closed

-- The next integer on the standard input. When there is none left the variable stays 0.
unfoldable pub next_input : M ℕ
next_input m = elim m.input [
  | [] ↦ returned 0 m
  | x ∷ xs ↦ returned (to_byte x) (record m { input = xs })
]

unfoldable pub input_value : M ℕ
unfolding has_window next_input
input_value = do
  gui ← has_window
  if gui then (λ m. returned m.last_key (record m { last_key = 0 })) else next_input

unfoldable pub input : M (Unit {0})
unfolding input_value
input = do arg ← fetch_argument; input_val ← input_value; write_arg arg input_val
