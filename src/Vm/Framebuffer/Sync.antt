-- ===== src/Vm/Framebuffer/Sync.antt =====
-- FBSYNC of src/VM.cpp: the conversion of the pixels to colours.
use native.Mathlib.Decide.{dec_lt}
use custom_isa_8bit_vm.Base.{
  ltb, leb, if◌then◌else◌, get_elem?, ℕ, zero, suc, ◌+◌, ◌≤◌, ◌<◌, ◌≡◌, refl, ap, ◌∙◌, ◌≢◌, ◌&&◌,
  Option, none, some, arith,
}
use custom_isa_8bit_vm.Vm.State.{Machine, returned, undefined, update, framebuffer_start}
use custom_isa_8bit_vm.Config.{ram_size, colors}
use custom_isa_8bit_vm.Vm.Effects.{read_then}
use custom_isa_8bit_vm.Vm.Framebuffer.{convert, color_at}

pub palette : (k : ℕ) → k < 8 → (c : ℕ) × (get_elem? colors k ≡ some c)
palette zero h = (_, refl)
palette (suc zero) h = (_, refl)
palette (suc (suc zero)) h = (_, refl)
palette (suc (suc (suc zero))) h = (_, refl)
palette (suc (suc (suc (suc zero)))) h = (_, refl)
palette (suc (suc (suc (suc (suc zero))))) h = (_, refl)
palette (suc (suc (suc (suc (suc (suc zero)))))) h = (_, refl)
palette (suc (suc (suc (suc (suc (suc (suc zero))))))) h = (_, refl)
palette (suc (suc (suc (suc (suc (suc (suc (suc k)))))))) h = absurd (omega arith)

beyond_palette : (k : ℕ) → 8 ≤ k → get_elem? colors k ≡ none
beyond_palette (suc (suc (suc (suc (suc (suc (suc (suc k)))))))) h = refl
beyond_palette zero h = absurd (omega arith)
beyond_palette (suc zero) h = absurd (omega arith)
beyond_palette (suc (suc zero)) h = absurd (omega arith)
beyond_palette (suc (suc (suc zero))) h = absurd (omega arith)
beyond_palette (suc (suc (suc (suc zero)))) h = absurd (omega arith)
beyond_palette (suc (suc (suc (suc (suc zero))))) h = absurd (omega arith)
beyond_palette (suc (suc (suc (suc (suc (suc zero)))))) h = absurd (omega arith)
beyond_palette (suc (suc (suc (suc (suc (suc (suc zero))))))) h = absurd (omega arith)

-- The pixels from `i` on, `n` of them, hold colours of the palette.
abbrev pub HasColors : (ℕ → ℕ) → ℕ → ℕ → Type 0
HasColors f zero i = Unit
HasColors f (suc n) i = (f (framebuffer_start + i) < 8) × HasColors f n (suc i)

-- The colour of the pixel, where it is one of the `n` pixels from `i` on.
abbrev pub shown : (ℕ → ℕ) → ℕ → ℕ → ℕ → Option ℕ → Option ℕ
shown f n i x before =
    if leb i x && ltb x (i + n) then get_elem? colors (f (framebuffer_start + x)) else before

pub record Painted (n i : ℕ) (m : Machine) : Type 0 where
  pub after : Machine
  pub same : convert n i m ≡ returned tt after
  pub ram_kept : after.ram ≡ m.ram
  pub pixels : (x : ℕ) → some (after.display x) ≡ shown m.ram n i x (some (m.display x))

abbrev paint : ℕ → ℕ → Machine → Machine
paint i c m = record m { display = update m.display i c }

convert-round :
    (n i c : ℕ) (m : Machine)
    → framebuffer_start + i < ram_size
    → get_elem? colors (m.ram (framebuffer_start + i)) ≡ some c
    → convert (suc n) i m ≡ convert n (suc i) (paint i c m)
unfolding convert color_at
convert-round n i c m l e = read_then (framebuffer_start + i) _ m l ∙ rw e

convert_zero : (i : ℕ) (m : Machine) → convert zero i m ≡ returned tt m
unfolding convert
convert_zero i m = refl

shown-paint :
    (n i c x : ℕ) (m : Machine)
    → get_elem? colors (m.ram (framebuffer_start + i)) ≡ some c
    → shown m.ram n (suc i) x (some ((paint i c m).display x))
      ≡ shown m.ram (suc n) i x (some (m.display x))
shown-paint n i c x m e = elim (dec_lt x i) [
  | yes l ↦ ground arith
  | no l ↦ elim (dec_lt i x) [
    | yes k ↦ ground arith
    | no k ↦ let s : x ≡ i = omega arith in rw s (ground arith)
  ]
]

-- The conversion of `n` pixels from `i` on, whose bytes are all within the palette, ends with the
-- colour of each of them on display, every other place of the display as it was, and the RAM too.
pub convert-Painted :
    (n i : ℕ) (m : Machine)
    → framebuffer_start + i + n ≤ ram_size
    → HasColors m.ram n i
    → Painted n i m
convert-Painted zero i m l h = record {
  after = m;
  same = convert_zero i m;
  ram_kept = refl;
  pixels = λ x. ground arith;
}
convert-Painted (suc n) i m l h =
    let (c, e) = palette (m.ram (framebuffer_start + i)) h.0 in
    let p = convert-Painted n (suc i) (paint i c m) (omega arith) h.1 in
    record {
      after = p.after;
      same = convert-round n i c m (omega arith) e ∙ p.same;
      ram_kept = p.ram_kept;
      pixels = λ x. p.pixels x ∙ shown-paint n i c x m e;
    }

convert-beyond :
    (n i : ℕ) (m : Machine)
    → framebuffer_start + i < ram_size
    → 8 ≤ m.ram (framebuffer_start + i)
    → convert (suc n) i m ≡ undefined
unfolding convert color_at
convert-beyond n i m l h =
    read_then (framebuffer_start + i) _ m l ∙ rw (beyond_palette (m.ram (framebuffer_start + i)) h)

-- The conversion of pixels among which one has a byte beyond the eight colours reads outside the
-- array of colours, whatever the other pixels are.
pub convert-undefined :
    (n i x : ℕ) (m : Machine)
    → framebuffer_start + i + n ≤ ram_size
    → i ≤ x
    → x < i + n
    → 8 ≤ m.ram (framebuffer_start + x)
    → convert n i m ≡ undefined
convert-undefined zero i x m l p q h = absurd (omega arith)
convert-undefined (suc n) i x m l p q h = elim (dec_lt (m.ram (framebuffer_start + i)) 8) [
  | yes small ↦
      let (c, e) = palette (m.ram (framebuffer_start + i)) small in
      let ne : i ≢ x = λ s. absurd (omega (arith, ap (λ j. m.ram (framebuffer_start + j)) s)) in
      convert-round n i c m (omega arith) e
      ∙ convert-undefined n (suc i) x (paint i c m) (omega arith) (omega arith) (omega arith) h
  | no large ↦ convert-beyond n i m (omega arith) (omega arith)
]
