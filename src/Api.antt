-- ===== src/Api.antt =====
-- The enumerations and the exception types of rtmidi17/rtmidi17.hpp.
use rt_midi.Base.{ℕ, Bool, ◌==◌}

-- `enum class API`
pub data Api : Type 0 where
  unspecified macosx_core linux_alsa unix_jack windows_mm windows_uwp dummy : Api

-- The values of the enumeration, in its order, and `==` on them.
abbrev pub ordinal : Api → ℕ
ordinal unspecified = 0
ordinal macosx_core = 1
ordinal linux_alsa = 2
ordinal unix_jack = 3
ordinal windows_mm = 4
ordinal windows_uwp = 5
ordinal dummy = 6

abbrev pub same : Api → Api → Bool
same a b = ordinal a == ordinal b

-- `enum midi_error`
pub data MidiError : Type 0 where
  warning unspecified no_devices_found invalid_device memory_error invalid_parameter invalid_use :
      MidiError
  driver_error system_error thread_error : MidiError

-- The exception types that `error` is instantiated at.
pub data ErrorType : Type 0 where
  no_devices_found_error invalid_device_error memory_error invalid_parameter_error : ErrorType
  invalid_use_error driver_error system_error thread_error : ErrorType

-- `Error_T::code`
abbrev pub code : ErrorType → MidiError
code ErrorType.no_devices_found_error = MidiError.no_devices_found
code ErrorType.invalid_device_error = MidiError.invalid_device
code ErrorType.memory_error = MidiError.memory_error
code ErrorType.invalid_parameter_error = MidiError.invalid_parameter
code ErrorType.invalid_use_error = MidiError.invalid_use
code ErrorType.driver_error = MidiError.driver_error
code ErrorType.system_error = MidiError.system_error
code ErrorType.thread_error = MidiError.thread_error
