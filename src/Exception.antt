-- ===== src/Exception.antt =====
-- What the sources throw: the `std::runtime_error` and `std::logic_error` calls by their message,
-- and `InvalidInstructionException` by its two constructors.
use custom_isa_8bit_vm.Base.{ℕ, Bytes, ◌≡◌, refl}

pub data Exception : Type 0 where
  unknown_argument_type : ℕ → Exception
  stack_overflow stack_underflow heap_overflow freed_free_region : Exception
  cannot_divide_by_zero call_non_label label_as_number : Exception
  framebuffer_not_gui framebuffer_overflow : Exception
  invalid_opcode : ℕ → ℕ → Exception
  invalid_mnemonic : ℕ → Bytes → Exception
  allocation_failed : ℕ → Exception
  label_not_found : Bytes → Exception
  non_existant_register missing_skip_argument invalid_skip_directive : Exception
  invalid_argument out_of_range unmatched_close unmatched_open : Exception
  error_opening_file : Exception

-- How a function without state ends: undefined behaviour, an exception that leaves it, or a value.
pub data Result {ℓ} (A : Type ℓ) : Type ℓ where
  undefined : Result A
  err : Exception → Result A
  ok : A → Result A

infixl 5 ◌>>=◌
abbrev pub ◌>>=◌ {ℓ κ} : {A : Type ℓ} {B : Type κ} → Result A → (A → Result B) → Result B
undefined >>= next = undefined
err thrown >>= next = err thrown
ok value >>= next = next value

pub >>=-eq-ok {ℓ κ} :
    {A : Type ℓ} {B : Type κ} {last : B} (first : Result A) (next : A → Result B)
    → (first >>= next) ≡ ok last
    → (value : A) × (first ≡ ok value) × (next value ≡ ok last)
>>=-eq-ok undefined next e = cc
>>=-eq-ok (err thrown) next e = cc
>>=-eq-ok (ok value) next e = (value, refl, e)

pub ok-injective {ℓ} : {A : Type ℓ} {x y : A} → ok x ≡ ok y → x ≡ y
ok-injective e = cc
