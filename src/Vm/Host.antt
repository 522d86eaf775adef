-- ===== src/Vm/Host.antt =====
-- MiniFB as the code relies on it: what each call answers, and the key events that it delivers to
-- the callback. The library itself is no part of the model.
use custom_isa_8bit_vm.Base.{if◌then◌else◌, ℕ, ◌+◌, Bool, true, false, List, [], ◌∷◌}
use custom_isa_8bit_vm.Vm.State.{uninitialised, null, opened, returned, undefined, M, get_gui}

pub data Key : Type 0 where
  up down left right other_key : Key

-- The answer of one call of `mfb_wait_sync` or `mfb_update_ex`: whether it succeeded (`true`, or
-- `MFB_STATE_OK`), and the keys with `is_pressed`, in order.
pub record Reply : Type 0 where
  pub success : Bool
  pub events : List (Key × Bool)

-- Whether `mfb_open_ex` gives a window, and the answer to the n-th call after it.
pub record Host : Type 0 where
  pub opens : Bool
  pub reply : ℕ → Reply

abbrev pub key_code : Key → ℕ → ℕ
key_code up last = 1
key_code down last = 2
key_code left last = 3
key_code right last = 4
key_code other_key last = last

-- The keyboard callback, over the events in order.
unfoldable pub on_keys : List (Key × Bool) → ℕ → ℕ
on_keys [] last = last
on_keys ((key, pressed) ∷ events) last =
    on_keys events (if pressed then key_code key last else last)

-- A call with the window: undefined before the pointer is set.
unfoldable pub call_host : Host → M Bool
unfolding on_keys
call_host host m = elim m.window [
  | uninitialised ↦ undefined
  | _ ↦ returned (host.reply m.host_calls).success (record m {
    host_calls = m.host_calls + 1;
    last_key = on_keys (host.reply m.host_calls).events m.last_key;
  })
]

-- The start of `exec`: in GUI mode the window is opened.
unfoldable pub open_window : Host → M (Unit {0})
unfolding get_gui
open_window host m = returned tt (record m {
  window = if get_gui m then (if host.opens then opened else null) else uninitialised;
  display = λ i. 0;
  host_calls = 0;
})

-- `get_gui() && window`, where the pointer is read in GUI mode only.
unfoldable pub has_window : M Bool
unfolding get_gui
has_window m =
    if get_gui m
    then elim m.window [
      | uninitialised ↦ undefined
      | null ↦ returned false m
      | opened ↦ returned true m
    ]
    else returned false m
