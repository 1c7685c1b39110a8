-- ===== src/Lib.antt =====
-- Nachos 3.4, an instructional operating system that runs on a simulated machine: a model of the
-- machine, of its interrupts and its disk, of the file system, of threads, their scheduler and
-- semaphores, of address spaces, of the system calls and of the post office.
--
-- The parts, by the files that model them; source paths are from the repository's root.
--   Base                 tests, lists, options that stand for a failing ASSERT, bits, integers.
--   BitMap               nachos-3.4/code/userprog/bitmap.cc: Mark, Clear, Test, Find, NumClear and
--                        the constructor are mark, clear, test, find, num_clear and init.
--   FileSys/FileHeader   nachos-3.4/code/filesys/filehdr.cc: Allocate and Deallocate, which take
--                        the sectors of a file from a bit map and give them back.
--   FileSys/Directory    nachos-3.4/code/filesys/directory.cc: Find, FindIndex, Add, Remove over the
--                        table of entries; FileSys/Names has strncmp and strncpy.
--   FileSys/OpenFile     nachos-3.4/code/filesys/openfile.cc: ReadAt, WriteAt, Read, Write and Seek; the
--                        disk is the bytes of each sector while one thread uses it.
--   FileSys/Image        the bytes of the structures that the file system stores on the disk.
--   FileSys/FileSystem   nachos-3.4/code/filesys/filesys.cc: format and mount are the constructor, create,
--                        open_file and remove the operations; fetch_... and write_... are FetchFrom and
--                        WriteBack of filehdr.cc, directory.cc and nachos-3.4/code/userprog/bitmap.cc.
--   FileSys/OpenTable    the table of open files of filesys.cc: FindFreeSlot, and Open with a type.
--   Machine              nachos-3.4/code/machine/machine.cc, machine.h and translate.cc: registers,
--                        memory, page table or TLB; Translate, ReadMem, WriteMem, RaiseException.
--   Mips                 nachos-3.4/code/machine/mipssim.cc and mipssim.h: Decode is decode, the
--                        switch of OneInstruction is execute with a function exec_... for each
--                        branch, the function as a whole is one_instruction, and Mult is mult.
--   SortedList           nachos-3.4/code/threads/list.cc.
--   Interrupt            nachos-3.4/code/machine/interrupt.cc: Schedule, CheckIfDue, OneTick,
--                        SetLevel and Idle on a record with the clock of stats.h.
--   Disk                 nachos-3.4/code/machine/disk.cc: the latency and the requests, which
--                        schedule an interrupt.
--   Semaphore            nachos-3.4/code/threads/synch.cc: V, and one round of the loop of P; in
--                        Semaphore/Table the named semaphores of nachos-3.4/code/userprog/stable.cc.
--   Threads              nachos-3.4/code/threads/thread.cc and scheduler.cc, with the globals of
--                        system.cc: the record Kernel. Scheduler has ReadyToRun, FindNextToRun, Run
--                        on both sides of SWITCH, Fork, Yield, Sleep and Finish; Semaphores has P and V
--                        on the kernel, and resume, which goes on where a thread was switched away;
--                        Steps is the step relation with its reachable states.
--   AddrSpace            nachos-3.4/code/userprog/addrspace.cc: the constructor is create_space, with
--                        allocate_pages for its frames and load_program for its code and data.
--   Syscalls             nachos-3.4/code/userprog/exception.cc: exception_handler and a function for each
--                        case; Transfer is UserToSystem and SystemToUser, Console is
--                        nachos-3.4/code/threads/synchcons.cc, and Files has the file system on the host's
--                        files of nachos-3.4/code/filesys/filesys.h and openfile.h.
--   Processes            nachos-3.4/code/userprog/ptable.cc and pcb.cc: exec_update, join_begin and
--                        join_end on both sides of JoinWait, exit_update up to ExitWait, and remove.
--                        Family has the threads of a process and its parent, which go through Exit and
--                        Join one step at a time.
--   Devices              nachos-3.4/code/machine/network.cc, console.cc and timer.cc, and
--                        nachos-3.4/code/filesys/synchdisk.cc, whose lock is empty in the source.
--   PostOffice           nachos-3.4/code/network/post.cc with nachos-3.4/code/threads/synchlist.cc: send,
--                        deliver for a round of PostalDelivery, and receive; put and get of a box.
-- The header of a file draws on the bit map's find, test and clear; the processor reads and writes
-- through the translation; the disk puts its interrupt into the sorted list of pending ones.
-- The scheduler's ready list and the queues of the semaphores are such lists too, the address space
-- takes its frames from a bit map, an open file reads through its header, and the system calls work
-- on the machine and the named semaphores.
--
-- A register or a word of a bit map is the natural number of its 32-bit pattern, with the wrap-around
-- written out; an int that the source uses as a sector or an index is an integer. Sizes, ticks and
-- sector numbers of the disk are natural numbers without a bound: the model has no overflow of them.
-- A function that may stop at an ASSERT, or reach outside an array, returns an Option, and none is
-- that stop. An exception of the machine is a value with the state on which the kernel's handler
-- runs. Handlers of interrupts are parameters, since they are kernel code called by pointer. Kernel code
-- of a system call returns the next state, or that it halts, waits or ends its thread. What SWITCH
-- resumes is the point that a thread saved: a data type of the places in the code from which Run is
-- called. The calls of the host's files and the operations of the table of processes are records of
-- operations that the system calls take as parameters. A block of the table has the two semaphores of
-- the handshake and not multex, and the table has no bmsem: these only exclude other threads.
--
-- The loops run over the rounds that are left, except the loop of CheckIfDue in OneTick and Idle,
-- which runs on fuel: one more than the number of interrupts that are due is enough.
-- The digits of a number are counted on fuel 10, which is enough for an int.
--
-- Not modelled: the waits of the post office, the sockets of the host, and all messages, debugging and start-up. WordToHost and its kin are the
-- identity, as on a little-endian host.
pub mod AddrSpace
pub mod Base
pub mod BitMap
pub mod FileSys
pub mod Machine
pub mod Mips
pub mod SortedList
pub mod Syscalls
pub mod Threads
pub mod Interrupt
pub mod Disk
pub mod Devices
pub mod PostOffice
pub mod Processes
pub mod Semaphore
