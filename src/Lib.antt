-- ===== src/Lib.antt =====
-- Verification of noKernel, an x86-64 kernel with its memory managers and its common library.
--
-- Parts. The boot loader (boot/src) loads the kernel and a font, and hands the kernel a memory map
-- (shared/boot). The physical memory manager (kernel/mm/pmm.cpp) builds a bitmap of frames from it
-- and hands out runs of frames. The heap (kernel/mm/heap.cpp) takes frames from it, maps them
-- through the virtual memory manager, and hands out blocks. The console (kernel/dev/console.cpp)
-- draws the characters of the font on the framebuffer; kprintf and panic print on it and over the
-- serial line. What each file models:
--
--   Prelude   Boolean tests on numbers, lists by index; Prelude/Tests, Prelude/Lists
--             and Prelude/Text.
--   Outcome   how a call ends: it returns, panics (kernel/include/panic.h), reads through a null
--             pointer, or does not come back.
--   Word      wrap-around to 8, 16, 32 and 64 bits, ALIGN_UP, ALIGN_DOWN
--             and the integer pow (lib/common/include/math.h), and the laws of masks and single bits.
--   Boot      bootinfo_t and EFI_MEMORY_DESCRIPTOR, the walk over the memory map, and contains
--             (lib/common/include/stdlib.h).
--   Pmm       kernel/mm/pmm.cpp. The statics bitmap, totalFrames and freeFrames are a record that
--             each operation takes and returns. Each function has the name that it has in the source
--             (set is set_used, since set is a list operation here); loop bodies are named apart.
--   Heap      kernel/mm/heap.cpp. The memory is a map from addresses to block headers; a header that
--             data overwrites is gone. The list of blocks, its walk, split, join and append are in
--             Heap; Heap/Calls has the calls that need frames and page tables, over the interface
--             Mapper of the two managers.
--   Memory    lib/common/memory.cpp, on memory as a function from addresses to bytes.
--   Printf    lib/common/vsnprintf.cpp, without floating point, and is_digit and atoi. The output
--             function is a parameter; the bits of flags are a record; the local buffer of an integer
--             is a list, last character first, which is the order in which it is put.
--             Printf/Format has the interpreter; a format string is the list of its characters
--             without the last zero, and an argument is a 64-bit slot or a string.
--   Tables    kernel/arch/x86_64/gdt.cpp and idt.cpp: the entries of the descriptor tables.
--   Vmm       kernel/mm/vmm.cpp: four levels of page tables as 64-bit words in memory, over any frame
--             allocator. enable_nx, invlpg and the load of cr3 are left out. Vmm/Tree reads the tables
--             as a tree, Vmm/Create, Vmm/Walk and Vmm/Store change it by a table and by an entry,
--             Vmm/Mapped and Vmm/Ranges have map, unmap and map_range as changes of a map from pages to
--             entries, Vmm/RoundTrip what translate makes of them, Vmm/Direct what init maps.
--             Vmm/Allocators has the frame allocator of Pmm as one for page tables. Vmm/Switch
--             has the change of the addresses when init sets physOffset, Vmm/Spent and Vmm/Refused the
--             frames and the reasons of a refusal, Vmm/Requests the ranges that init asks for.
--   Machine   the managers together: the page tables take their frames from Pmm, and the heap takes
--             frames and mappings from both, which fills the interface Mapper. Machine/Frames has the
--             frames that change hands, Machine/Backed the memory behind a range of addresses,
--             Machine/System and Machine/Start the heap on it.
--
--   Screen    kernel/dev/framebuffer.cpp, on memory as bytes by address.
--   Font      kernel/lib/font.cpp, and where kernel/dev/console.cpp reads a line of a character.
--   Console   kernel/dev/console.cpp: the object with its cursor and the memory as a pair that every
--             operation takes and returns. Console/Output has the calls that print a format over the
--             serial line and on the console.
--   Panic     kernel/panic.cpp. A run ends with the state at which the processor halts.
--   Interrupts  kernel/arch/x86_64/irq.cpp and isr.cpp. The writes to ports are a log; the handlers are
--             a parameter. Interrupts/Vectors has the controllers as their data sheet describes them.
--   Loader    boot/src: Loader/Main has the run of efi_main, Loader/Elf what it does with the kernel
--             file, Loader/Disk and Loader/Path include/disk/disk.c and include/console/console.c,
--             Loader/Handover include/boot/boot.c, Loader/Runtime rt/mem.c. The firmware is a record of
--             functions on a state of its own, and Loader/Main has a second one of those that only
--             efi_main calls; a trace records what is taken and given back. The boot information is a
--             record. What the loader prints, the disk identifier that it prints with it, Stall and the
--             watchdog are left out.
--   Entry     HeapAlloc of kernel/entry.cpp, and the part of _start that sets up the memory.
-- Numbers are natural numbers with the wrap-around of the source written out. Loops are structural
-- recursion on the number of their rounds where the source counts them. The walks over the list of
-- blocks have one round more than the heap has bytes, which is enough since a block has a header of
-- 24 bytes; the walk over the memory map has one round more than the map has bytes, which is enough
-- since a descriptor has at least one; the loop over a format string has one round more than the
-- string has characters, and each round takes one. Running out
-- of rounds is the outcome hangs. alloc calls itself after grow, and then finds the block that grow
-- added, so that two tries are enough.
--
-- The loop of pow halves a power of 64 bits, which 65 rounds do. The loop of HeapAlloc halves a number
-- from 256 down to 1, which nine rounds do. The loader's handover makes three attempts, as the source
-- does, and its loop over the segments has as many rounds as the 16 bits of e_phnum can count. The walk
-- over a device path has a bound that its caller chooses.
--
-- Not modelled: the firmware, whose services are a parameter of the loader; the order in which
-- ArchInit, and _start after the heap, call the parts; assembly, port instructions and the registers
-- of the processor; floating point (not compiled into the kernel); strlen.
pub mod Boot
pub mod Console
pub mod Entry
pub mod Font
pub mod Heap
pub mod Interrupts
pub mod Loader
pub mod Machine
pub mod Memory
pub mod Outcome
pub mod Panic
pub mod Pmm
pub mod Prelude
pub mod Printf
pub mod Screen
pub mod Tables
pub mod Vmm
pub mod Word
