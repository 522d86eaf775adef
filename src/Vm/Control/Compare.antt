-- ===== src/Vm/Control/Compare.antt =====
-- CMP and the conditional jumps behind it.
use custom_isa_8bit_vm.Base.{ltb, ◌==◌, if◌then◌else◌, Bool-cases, ℕ, ◌+◌, ◌≡◌, ◌∙◌, inl, inr, Bool}
use custom_isa_8bit_vm.Vm.State.{address, RawArgument, Machine, returned}
use custom_isa_8bit_vm.Process.{to_addr}
use custom_isa_8bit_vm.Vm.Operand.{fetch_argument}
use custom_isa_8bit_vm.Vm.Effects.{bind_lem}
use custom_isa_8bit_vm.Vm.Operand.{operand_of}
use custom_isa_8bit_vm.Vm.Alu.{cmp}
use custom_isa_8bit_vm.Vm.Control.{branch_if, branch_target}

-- The machine behind a comparison of two values.
abbrev pub compared : ℕ → ℕ → Machine → Machine
compared v w m = record m { zero = v == w; sign = ltb w v }

-- A conditional jump to a label: to the label in the region where the test holds, on to the next
-- instruction where not.
pub branch_if-label :
    (test : Machine → Bool) (value : ℕ) (m m' : Machine)
    → fetch_argument m ≡ returned (record { type = address; value = value }) m'
    → branch_if test m
      ≡ returned tt (record m' {
        process = record m'.process {
          pc = if test m' then to_addr (m'.process.first_sector + value) else m'.process.pc;
        };
      })
unfolding branch_if branch_target
branch_if-label test value m m' e =
    bind_lem fetch_argument _ m e
    ∙ elim (Bool-cases (test m')) [ inl holds ↦ rw holds | inr fails ↦ rw fails ]

-- CMP reads both operands and keeps everything but the flags.
pub cmp-compared :
    (a b : RawArgument) (v w : ℕ) (m m₁ m₂ m₃ m₄ : Machine)
    → fetch_argument m ≡ returned a m₁
    → fetch_argument m₁ ≡ returned b m₂
    → operand_of a.type a.value m₂ ≡ returned v m₃
    → operand_of b.type b.value m₃ ≡ returned w m₄
    → cmp m ≡ returned tt (compared v w m₄)
unfolding cmp
cmp-compared a b v w m m₁ m₂ m₃ m₄ e₁ e₂ e₃ e₄ =
    bind_lem fetch_argument _ m e₁
    ∙ bind_lem fetch_argument _ m₁ e₂
    ∙ bind_lem (operand_of a.type a.value) _ m₂ e₃
    ∙ bind_lem (operand_of b.type b.value) _ m₃ e₄
