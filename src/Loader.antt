-- ===== src/Loader.antt =====
-- The boot loader (boot/src): what it uses of the firmware, and the resources that it takes.
pub mod Disk
pub mod Elf
pub mod Path
pub mod Runtime
pub mod Placed
pub mod Range
pub mod Handover
pub mod Release
pub mod Entered
pub mod Main
pub mod Pools
pub mod Patience
mod Tests
use nokernel.Prelude.{ℕ, ◌+◌, ◌^◌, Bool, true, false, leb, ◌==◌, ◌&&◌, List, [], ◌∷◌, if◌then◌else◌}
use nokernel.Memory.{Bytes}

-- Status codes: an error has the high bit set (boot/src/efiapi/Errors.h).
abbrev pub efi_error : ℕ → Bool
efi_error status = leb (2 ^ 63) status

abbrev pub efi_success : ℕ
efi_success = 0

abbrev pub efi_load_error : ℕ
efi_load_error = 2 ^ 63 + 1

abbrev pub efi_invalid_parameter : ℕ
efi_invalid_parameter = 2 ^ 63 + 2

abbrev pub efi_buffer_too_small : ℕ
efi_buffer_too_small = 2 ^ 63 + 5

abbrev pub efi_out_of_resources : ℕ
efi_out_of_resources = 2 ^ 63 + 9

abbrev pub efi_not_found : ℕ
efi_not_found = 2 ^ 63 + 14

-- What GetMemoryMap gives, but for the descriptors, which it writes to the buffer.
pub record MemoryMap : Type 0 where
  pub size : ℕ
  pub key : ℕ
  pub descriptor_size : ℕ
  pub descriptor_version : ℕ

-- The firmware, with a state of its own and the memory. A call that fails leaves its results to the
-- firmware as well.
pub record Firmware : Type 1 where
  pub State : Type 0
  -- Open(root, &file, path) of the file protocol, and Close: a handle.
  pub open_file : State → ℕ → List ℕ → (ℕ × ℕ) × State
  pub close_file : State → ℕ → State
  -- GetInfo(file, &size, buffer): the status, the size, and the FileSize that the buffer then has.
  pub get_info : State → ℕ → ℕ → ℕ → (ℕ × (ℕ × ℕ)) × State
  -- Read(file, &count, address): the status, the count, and the memory.
  pub read_file : State → ℕ → ℕ → ℕ → Bytes → (ℕ × ℕ) × (State × Bytes)
  pub allocate_pool : State → ℕ → (ℕ × ℕ) × State
  pub free_pool : State → ℕ → State
  pub allocate_pages : State → ℕ → (ℕ × ℕ) × State
  pub free_pages : State → ℕ → ℕ → State
  -- GetMemoryMap(&size, buffer, ...), and ExitBootServices(image, key).
  pub get_memory_map : State → ℕ → ℕ → (ℕ × MemoryMap) × State
  pub exit_boot_services : State → ℕ → ℕ × State

-- What is taken of the firmware and given back.
pub data Resource : Type 0 where
  file : ℕ → Resource
  pool : ℕ → Resource
  pages : ℕ → ℕ → Resource

abbrev pub same : Resource → Resource → Bool
same (file a) (file b) = a == b
same (pool a) (pool b) = a == b
same (pages a m) (pages b n) = (a == b) && (m == n)
same (file a) (pool b) = false
same (file a) (pages b n) = false
same (pool a) (file b) = false
same (pool a) (pages b n) = false
same (pages a m) (file b) = false
same (pages a m) (pool b) = false

-- A call that took a resource, or gave one back. A trace has the last call first.
pub data Event : Type 0 where
  took : Resource → Event
  released : Resource → Event

abbrev pub without : Resource → List Resource → List Resource
without r [] = []
without r (x ∷ xs) = if same r x then xs else x ∷ without r xs

-- What is held at the end of a trace.
abbrev pub held : List Event → List Resource
held [] = []
held (took r ∷ trace) = r ∷ held trace
held (released r ∷ trace) = without r (held trace)

-- The state of the firmware, the memory, and the trace of the calls, which no code reads.
pub record World (f : Firmware) : Type 0 where
  pub firmware : f.State
  pub bytes : Bytes
  pub trace : List Event
