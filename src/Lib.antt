-- ===== src/Lib.antt =====
-- NBOS: a small AArch64 kernel for the QEMU virt board, with a page allocator, a kernel heap, page
-- tables, a round-robin scheduler, soft timers, and a Minix file system on a flash chip.
--
-- The parts and their files:
--   * Base (Lists, Runs, Int, Bits): Booleans, lists and numbers; `Run` is the result of code that may
--     fault (`fault`: an access through a null or dangling pointer, out of range, or undefined
--     behaviour) or exhaust the fuel of a loop; `M S` is the state monad over it.
--   * LinkedList: include/list.h. Nodes are addresses in a heap with the functions `prev` and `next`;
--     `Chain.IsRing` says which addresses a ring holds, in order.
--   * Str: strcmp, strlen, strcpy, memset, memcpy and pow of lib/lib.c, over byte memory.
--   * Console: the calls of `printf`, recorded with their formats and arguments, and the serial port.
--     `Printed S` is the output beside a state.
--   * Page: mm/mm.c and include/mm.h, the table of pages (`mem_map`), `get_free_page`, `free_page`,
--     and the macros between addresses and page numbers.
--   * Kmalloc: mm/kmalloc.c, the bucket allocator, on top of Page.
--   * Paging: mm/mm.c, the page tables of the kernel and of processes, on top of Page;
--     `Walk.translate` and `User.user_translate` are what the hardware finds in them. Paging.Flash is
--     about `init_mm`, which maps the flash chip.
--   * Fs: include/fs/fs.h and include/fs/minix_fs.h, the data of the file system. Fs.Buffer has the
--     buffer list of fs/fs.c, Fs.Inodes the inodes of fs/fs.c and fs/minix_fs.c, Fs.Minix the block
--     map, lookup, reading and writing of fs/minix_fs.c, Fs.Name the path walk (`Resolve.resolve_path`
--     over lists of components is what it comes to), Fs.Files the open files, Fs.Init the
--     mounting, and Fs.Pflash the driver of the flash chip. Fs.Frame says what they leave alone, and
--     Fs.Print has the print functions of fs/minix_fs.c.
--   * Task: kernel/task.c with `switch_mm` of arch/aarch64.c and `cpu_switch_to` of arch/vector.S, on
--     top of LinkedList and Page. Task.Exec adds the processes (`copy_process`, `execv`), over the whole
--     system: tasks, heap and file system.
--   * Timer: kernel/soft_timer.c, on top of LinkedList and Kmalloc.
--   * Syscall: kernel/syscall.c, the calls on files on top of Fs.Files, `sys_exit` on top of
--     Task, and `sys_execv` on top of Task.Exec, with the table of the calls.
--   * Cpu: arch/aarch64.c and include/aarch64.h, the system registers and the interrupt masks.
--   * Gic: arch/gic_v3.c and include/gic_v3.h, the driver of the interrupt controller.
--   * Interrupt: arch/timer.c and arch/exception.c, from an interrupt to the switch of tasks, on top of
--     Cpu, Gic and Task.
--   * Boot: init/init_task.c, the first task and `init_main` up to its loop, on top of all other parts.
--   * Tests: the theorems applied to concrete states.
--
-- A function of the source is the definition with its name; its loops are definitions of their own.
-- Machine words are natural numbers with their wrap-around written out where a value can reach it.
-- Loops over a counter are recursions on the number of rounds left. Loops that end at a byte or at a
-- link take fuel: one more than the string, the ring or the chain is long is enough. The loops
-- of `minix_read` and `minix_write` take one round more than there are bytes.
--
-- The flash chip is a parameter, with hypotheses on what its commands do (Fs.Pflash), and so is the
-- interrupt controller, with hypotheses on what its registers show and enable (Gic.Pending,
-- Gic.Start). The file system stands on a device with a block for every number, and every write to
-- it takes effect: that block numbers lie on the chip is a hypothesis where zones are read
-- (Fs.Minix.Map.OnChip), and that a block is erased before it is written is one of Fs.Pflash. The
-- walk of the hardware over the page tables is `Paging.Walk.walk`. How it translates the addresses
-- that `copy_process` copies to is a parameter, with hypotheses on where it finds them
-- (Task.Exec.Load), which the walk over the tables of a process meets (Task.Exec.Program). Code
-- between `disable_irqsave` and `enable_irqsave` is one step, and so is an interrupt: none arrives
-- in the handler of another, also where `scheduler_tick` lets interrupts in. There is one block
-- device and one super block, and objects of the file system that `kmalloc` allocates are named by
-- fresh numbers; the buffer of `namei` faults where it would not fit a page.
--
-- Not modelled: the formatting of lib/printf.c, which is a copy of another project's code; the start-up
-- code in assembly; the loops of `init_main` and `idle_main`, which print, and `kdelay`, a busy wait;
-- `print_task_struct` and `print_task_queue`, since a `Task` has only the saved registers that new
-- threads use; and the user programs of rootfs. The soft timers do not run their handlers, the messages
-- of functions with an error result of their own are left out, and `irq_dispatch` does not print.
pub mod Base
pub mod LinkedList
pub mod Str
pub mod Console
pub mod Page
pub mod Kmalloc
pub mod Paging
pub mod Fs
pub mod Task
pub mod Timer
pub mod Syscall
pub mod Cpu
pub mod Gic
pub mod Interrupt
pub mod Boot
pub mod Tests
