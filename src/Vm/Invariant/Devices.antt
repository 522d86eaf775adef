-- ===== src/Vm/Invariant/Devices.antt =====
-- The invariant for the framebuffer, the window and the input of src/VM.cpp.
use custom_isa_8bit_vm.Base.{
  if◌then◌else◌, get_elem?, ℕ, zero, suc, ◌+◌, ◌<◌, refl, Bool, true, false, Option, none, some,
  List, [], ◌∷◌, arith,
}
use custom_isa_8bit_vm.Vm.State.{
  ArgType, number, register, address, indirect_reg, indirect_mem, RawArgument, Window,
  uninitialised, null, opened, Machine, Outcome, returned, undefined, ◌>>=◌, get_process, update,
  register_at, load, get_gui,
}
use custom_isa_8bit_vm.Process.{Process}
use custom_isa_8bit_vm.Config.{colors}
use custom_isa_8bit_vm.Vm.Framebuffer
use custom_isa_8bit_vm.Base.{ℤ, to_byte}
use custom_isa_8bit_vm.Vm.Host.{
  Host, Key, up, down, left, right, other_key, on_keys, call_host, open_window, has_window,
}
use custom_isa_8bit_vm.MemoryManager.{MemoryBlock}
use custom_isa_8bit_vm.Vm.Invariant.Rules.{
  same-Keeps, get_process-Keeps, load-Keeps, register_at-Keeps, returns, undefines, Ensures, Keeps,
  Inv, bind, branch, keeps,
}
use custom_isa_8bit_vm.Vm.Invariant.Instructions.{
  K, operands, load_arg-Keeps, fetch-Keeps, mov-Keeps, print_value-Keeps, arithmetic-Keeps,
  div-Keeps, cmp-Keeps, spush-Keeps, spop-Keeps, jmp-Keeps, branch_if-Keeps, call-Keeps, ret-Keeps,
  halloc-Keeps, hfree-Keeps,
}

module _ (p : Process) (blocks : List MemoryBlock) where
  on_keys-lt : (events : List (Key × Bool)) (last : ℕ) → last < 5 → on_keys events last < 5
  unfolding on_keys
  on_keys-lt [] last h = h
  on_keys-lt ((up, true) ∷ events) last h = on_keys-lt events 1 (omega arith)
  on_keys-lt ((down, true) ∷ events) last h = on_keys-lt events 2 (omega arith)
  on_keys-lt ((left, true) ∷ events) last h = on_keys-lt events 3 (omega arith)
  on_keys-lt ((right, true) ∷ events) last h = on_keys-lt events 4 (omega arith)
  on_keys-lt ((other_key, true) ∷ events) last h = on_keys-lt events last h
  on_keys-lt ((k, false) ∷ events) last h = on_keys-lt events last h

  -- The window does not matter to the invariant.
  call_window-Keeps :
      (host : Host) (w : Window) (m : Machine)
      → Inv p blocks m
      → Ensures (Inv p blocks) (elim w as (λ _. Outcome Bool) [
        | uninitialised ↦ undefined
        | _ ↦ returned (host.reply m.host_calls).success (record m {
          host_calls = m.host_calls + 1;
          last_key = on_keys (host.reply m.host_calls).events m.last_key;
        })
      ])
  call_window-Keeps host uninitialised m h = undefines
  call_window-Keeps host _ m h = returns (
      same-Keeps p blocks m _ refl refl
        (on_keys-lt (host.reply m.host_calls).events m.last_key h.key) refl refl h)

  pub call_host-Keeps : (host : Host) → K p blocks (call_host host)
  unfolding call_host
  call_host-Keeps host m h = call_window-Keeps host m.window m h

  pub open_window-Keeps : (host : Host) → K p blocks (open_window host)
  unfolding open_window
  open_window-Keeps host m h = returns (same-Keeps p blocks m _ refl refl h.key refl refl h)

  has_window_of-Keeps :
      (w : Window) (m : Machine)
      → Inv p blocks m
      → Ensures (Inv p blocks) (elim w as (λ _. Outcome Bool) [
        | uninitialised ↦ undefined
        | null ↦ returned false m
        | opened ↦ returned true m
      ])
  has_window_of-Keeps uninitialised m h = undefines
  has_window_of-Keeps null m h = returns h
  has_window_of-Keeps opened m h = returns h

  pub if-Ensures :
      {A : Type 0} (b : Bool) {x y : Outcome A}
      → Ensures (Inv p blocks) x
      → Ensures (Inv p blocks) y
      → Ensures (Inv p blocks) (if b then x else y)
  if-Ensures true h k = h
  if-Ensures false h k = k

  pub has_window-Keeps : K p blocks has_window
  unfolding has_window
  has_window-Keeps m h = if-Ensures (get_gui m) (has_window_of-Keeps m.window m h) (returns h)

  pub ruleset framebuffer = (operands, call_host-Keeps, has_window-Keeps)

  read_word-Keeps : (a : ℕ) → K p blocks (Framebuffer.read_word a)
  unfolding Framebuffer.read_word
  read_word-Keeps a = search keeps

  pixel_of-Keeps : (t : ArgType) (v : ℕ) → K p blocks (Framebuffer.pixel_of t v)
  unfolding Framebuffer.pixel_of
  pixel_of-Keeps register v = search operands depth 12
  pixel_of-Keeps indirect_reg v = bind _ get_process _ (get_process-Keeps p blocks) λ q.
      bind _ (register_at v >>= load) _
        (bind _ (register_at v) load (register_at-Keeps p blocks v) (load-Keeps p blocks))
        λ b. read_word-Keeps _
  pixel_of-Keeps indirect_mem v = search (keeps, read_word-Keeps) depth 8
  pixel_of-Keeps address v = search (keeps, read_word-Keeps) depth 8
  pixel_of-Keeps _ v = search keeps

  color_of-Keeps : (t : ArgType) (v : ℕ) → K p blocks (Framebuffer.color_of t v)
  unfolding Framebuffer.color_of
  color_of-Keeps number v = search keeps
  color_of-Keeps t v = load_arg-Keeps p blocks t v

  set_pixel-Keeps : (a b : RawArgument) → K p blocks (Framebuffer.set_pixel a b)
  unfolding Framebuffer.set_pixel
  set_pixel-Keeps a b = search (keeps, pixel_of-Keeps, color_of-Keeps) depth 14

  color_at_of-Keeps :
      (o : Option ℕ) (m : Machine)
      → Inv p blocks m
      → Ensures
          (Inv p blocks)
          (elim o as (λ _. Outcome ℕ) [ none ↦ undefined | some color ↦ returned color m ])
  color_at_of-Keeps none m h = undefines
  color_at_of-Keeps (some c) m h = returns h

  color_at-Keeps : (i : ℕ) → K p blocks (Framebuffer.color_at i)
  unfolding Framebuffer.color_at
  color_at-Keeps i m h = color_at_of-Keeps (get_elem? colors i) m h

  display-Keeps :
      (i c : ℕ)
      → Keeps {0} {A = Unit {0}}
          (Inv p blocks)
          (λ m. returned tt (record m { display = update m.display i c }))
  display-Keeps i c m h = returns (same-Keeps p blocks m _ refl refl h.key refl refl h)

  convert-Keeps : (n i : ℕ) → K p blocks (Framebuffer.convert n i)
  unfolding Framebuffer.convert
  convert-Keeps zero i = search keeps
  convert-Keeps (suc n) i =
      search (keeps, color_at-Keeps, display-Keeps, convert-Keeps n (suc i)) depth 12

  pub fbsync-Keeps : (host : Host) → K p blocks (Framebuffer.fbsync host)
  unfolding Framebuffer.fbsync
  fbsync-Keeps host = search (framebuffer, convert-Keeps) depth 14

  next_input_of-Keeps :
      (l : List ℤ) (m : Machine)
      → Inv p blocks m
      → Ensures (Inv p blocks) (elim l as (λ _. Outcome ℕ) [
        | [] ↦ returned 0 m
        | x ∷ xs ↦ returned (to_byte x) (record m { input = xs })
      ])
  next_input_of-Keeps [] m h = returns h
  next_input_of-Keeps (x ∷ xs) m h = returns (same-Keeps p blocks m _ refl refl h.key refl refl h)

  next_input-Keeps : K p blocks Framebuffer.next_input
  unfolding Framebuffer.next_input
  next_input-Keeps m h = next_input_of-Keeps m.input m h

  input_value-Keeps : K p blocks Framebuffer.input_value
  unfolding Framebuffer.input_value
  input_value-Keeps = bind _ has_window _ has_window-Keeps λ gui.
      branch _ gui (λ m h. returns (same-Keeps p blocks m _ refl refl (omega arith) refl refl h))
        next_input-Keeps

  pub input-Keeps : K p blocks Framebuffer.input
  unfolding Framebuffer.input
  input-Keeps = search (operands, input_value-Keeps) depth 12

  pub fbset-Keeps : K p blocks Framebuffer.fbset
  unfolding Framebuffer.fbset
  fbset-Keeps = search (operands, set_pixel-Keeps) depth 12
