-- ===== src/Lib.antt =====
-- A model of the tetOS kernel, a small 32-bit operating system in C, and what is proved of it.
--
-- The parts, each a module with the proofs in its children:
--   Ipc        kernel/ipc/ipc.c: spin locks (Spin), pipes (Pipe), mutexes (Mutex) and signals
--              (Signal), which call the process table
--   Process    kernel/process/process.c: the table of processes (Process, Create, Kill), the
--              timer's scheduler (Schedule), the ring of the run queue (Cycle, Walks, Invariant) and
--              runs of the kernel's calls (Runs); it takes stacks from Heap
--   Pmm        kernel/pmm/pmm.c: the allocator of page frames over its bitmap
--   Heap       kernel/heap/heap.c: kmalloc and kfree over the list of block headers in memory
--   Keyboard   kernel/keyboard/keyboard.c: the scan code decoder and the buffer of keys
--   Vga        kernel/vga/vga.c: the text console (Cells, Bounds, Text)
--   Stdio      kernel/stdio/stdio.c: printk, to the console and to the serial port (Digits)
--   Syscall    kernel/syscall/syscall.c: the test of user pointers (Pointers) and the calls on
--              processes, the heap and the console
--   Mouse      kernel/mouse/mouse.c: packets and the pointer (Packets), the buffer of events (Events)
--   Wm         kernel/wm/wm.c: the window manager: the stacking order (Stack, Chain, Links, Order,
--              Focus), geometry (Geometry, Placement), the operations (Windows) and the events
--              that it takes from Mouse (Update)
--   Strings    kernel/string/string.c: strcmp, and the functions over memory (Memory)
--   Tetfs      kernel/fs/tetfs.c: the block bitmap (Bitmap), inodes on the disk (Inode), the
--              directory operations (Directory), deletion (File), formatting and mounting (Format)
--              and the open files (Descriptors), over the disk driver as an interface (Drive)
-- Shared helpers: Prelude (tests, lists, memory as functions, integers, lists
-- of different numbers), Bits (single bits of
-- machine words, and Bits.Split: their high and low parts), Ring (an array read as a ring).
--
-- How the state corresponds. A struct is a record with the source's fields, and the static variables
-- of a file are the fields of one record. An array or a piece of memory is a function from the
-- index; where an index must stay in bounds, the component's invariant says so. A `uint32_t` is a
-- natural number with the wrap-around of its operations written out (`add32`, `sub32`); the null
-- pointer is 0, or `none` for an argument of a pipe function. A function that changes state returns
-- the new state beside its result, and has the name of the C function. A part of a C function that
-- proofs speak about (a loop, a section under a lock) is a function of its own.
--
-- A `process_t *` is the number of the slot in the table, and NULL is the number behind the last
-- slot. The walks around the run queue take 16 rounds: a ring of different slots has at most 16.
--
-- Loops. A `for` loop recurs on the rounds left. A `while` loop takes fuel: `p->size` or 256
-- rounds for the pipes, as each round moves a byte; one round for each frame in `pmm_init`; and
-- one more than the headers that fit into the heap for the walks over the list of blocks. The
-- string functions take the bytes they may walk over; TetFS gives `strcmp` the 51 bytes of a
-- name. The theorems determine the results, so the fuel is enough in each. `spin_lock` and
-- `mutex_lock` may wait for ever: they return `none` when the fuel runs out.
--
-- Interleavings. `Ipc.Mutex.Exclusion` runs any number of processes over one mutex. A step is an
-- exchange on the guard, its release, or a section that the guard protects; that a process
-- unlocks only a mutex that it holds is part of the steps, since `mutex_unlock` does not test it.
--
-- The disk. `Tetfs.Drive.Ata` has what the file system relies on of kernel/ata/ata.c: a sector that
-- was written with success is read back, and no other sector changes. A read is a function of the
-- disk's contents: a time-out that comes once and not the next time is not modelled, and sector
-- numbers are not cut to the driver's 28 bits. A name that fills its 51 bytes reads as if a terminator
-- followed; the C code would read on into the next field.
--
-- The screen. `Vga` leaves out the ports of the hardware's cursor. `Mouse` and `Wm` take the size that
-- kernel/graphics/graphics.c answers as arguments, and `Wm` takes the functions that the windows of
-- kernel/desktop/desktop.c pass to it as parameters. A `struct wm_window *` is an address, with 0
-- for NULL; the walks over the list of windows take a fuel that bounds their number.
--
-- Not modelled: ports, assembly, drawing, the boot loader; the padding and overlap of structs in
-- memory, except for the headers of the heap, whose blocks are proved to lie one behind the other.
pub mod Prelude
pub mod Bits
pub mod Ring
pub mod Ipc
pub mod Pmm
pub mod Heap
pub mod Keyboard
pub mod Process
pub mod Mouse
pub mod Vga
pub mod Syscall
pub mod Stdio
pub mod Wm
pub mod Strings
pub mod Tetfs
