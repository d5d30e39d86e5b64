-- ===== src/Boot/Tests.antt =====
-- A memory map of two descriptors of 48 bytes.
use nokernel.Prelude.{◌*◌, ◌==◌, if◌then◌else◌, arith}
use nokernel.Boot.{BootInfo, descriptors}
use nokernel.Boot.Walk.{Walked, descriptors-Walked}

abbrev two_descriptors : BootInfo
two_descriptors = record {
  mmap = λ offset. record {
    type_of = if offset == 0 then 7 else 1;
    physical_start = offset * 0x1000;
    number_of_pages = 2;
  };
  mmap_size = 96;
  desc_size = 48;
  fb = record { base = 0; size = 0; width = 0; height = 0; pitch = 0; format = 0 };
}

descriptors-Walked_example : Walked two_descriptors 0 (descriptors two_descriptors)
descriptors-Walked_example = descriptors-Walked two_descriptors (omega arith) (omega arith)
