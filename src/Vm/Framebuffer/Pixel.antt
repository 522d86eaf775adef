-- ===== src/Vm/Framebuffer/Pixel.antt =====
-- FBSET of src/VM.cpp behind its fetches: the pixel and its bound.
use mathlib.Core.Path.{subst}
use custom_isa_8bit_vm.Base.{le→leb, lt→leb, ℕ, ◌+◌, ◌-◌, ◌≤◌, ◌<◌, ◌≡◌, ◌∙◌, true, arith}
use custom_isa_8bit_vm.Vm.State.{
  number, register, number_16, Machine, returned, thrown, undefined, ◌>>=◌, word, load,
  framebuffer_start, get_gui,
}
use custom_isa_8bit_vm.Process.{to_addr}
use custom_isa_8bit_vm.Exception.{framebuffer_overflow}
use custom_isa_8bit_vm.Config.{register_count, framebuffer_tot_size}
use custom_isa_8bit_vm.Vm.Operand.{resolve_writeable_arg}
use custom_isa_8bit_vm.Vm.Effects.{bind_lem, load_register, write_beyond}
use custom_isa_8bit_vm.Vm.Framebuffer.{set_pixel, pixel_of}

module _ (m : Machine) (gui : get_gui m ≡ true) where
  -- In GUI mode FBSET with a two-byte literal index beyond the framebuffer throws and changes nothing.
  pub set_pixel-overflow :
      (pixel color : ℕ)
      → framebuffer_tot_size ≤ pixel
      → set_pixel
          (record { type = number_16; value = pixel })
          (record { type = number; value = color })
          m
        ≡ thrown framebuffer_overflow m
  unfolding set_pixel
  set_pixel-overflow pixel color l = rw (gui, le→leb framebuffer_tot_size pixel l)

  -- In GUI mode FBSET with an index in a register and the next one, and a literal colour, does not
  -- check it: where it is beyond the framebuffer the write goes behind the end of the RAM.
  pub set_pixel-register_unchecked :
      (r color : ℕ)
      → 0 < r
      → r < register_count
      → framebuffer_tot_size ≤ word (m.registers (r - 1)) (m.registers r)
      → set_pixel
          (record { type = register; value = r })
          (record { type = number; value = color })
          m
        ≡ undefined
  unfolding set_pixel
  set_pixel-register_unchecked r color p q l =
      let next : to_addr (r + 1) ≡ r + 1 = omega arith in
      let same : r + 1 - 1 ≡ r = omega arith in
      let low : (resolve_writeable_arg register (to_addr (r + 1)) >>= load) m
          ≡ returned (m.registers r) m =
        subst
          (λ k.
            (resolve_writeable_arg register (to_addr (r + 1)) >>= load) m
            ≡ returned (m.registers k) m)
          same (rw next (load_register (r + 1) m (omega arith) (omega arith))) in
      let index : pixel_of register r m ≡ returned (word (m.registers (r - 1)) (m.registers r)) m =
        bind_lem (resolve_writeable_arg register r >>= load) _ m (load_register r m p (omega arith))
        ∙ bind_lem (resolve_writeable_arg register (to_addr (r + 1)) >>= load) _ m low in
      rw gui (
        bind_lem (pixel_of register r) _ m index
        ∙ rw (lt→leb framebuffer_tot_size r (omega arith)) (
            write_beyond (framebuffer_start + word (m.registers (r - 1)) (m.registers r)) color m
              (omega arith)))
