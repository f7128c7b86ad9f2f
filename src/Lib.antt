-- ===== src/Lib.antt =====
-- The kernel of LinuxBasedOS (student-distrib/), a 32-bit x86 kernel in C with a read-only file
-- system, seven processes at most, three shells under a round-robin scheduler, text screens and the
-- usual PC devices.
--
-- The parts and their files:
-- Strings (child modules Length, Compare, Copy) is the string library of student-distrib/lib.c:
-- strlen, strncmp, strncpy, strcpy; Strings.Digits is itoa and strrev, and Printf is printf on top of
-- these and of the screen. Memory is memcpy of the same file, its assembly loops as recursive functions,
-- and Memory.Fill is memset, memset_word, memset_dword and memmove.
-- Filesystem is student-distrib/filesystem.c: Filesystem.Defs has the boot block, the inodes and
-- read_dentry_by_name, read_dentry_by_index, get_filesize_by_name and read_data; Filesystem.Layout has
-- filesystem_init and the addresses; Filesystem.Read has read_fs and read_fs_dir; Filesystem.Program
-- has is_executable and loadProcess (load_process). The file system reads through memcpy and compares
-- names with strncmp.
-- Descriptor and Process are the structures of student-distrib/system_calls.h. Syscall is open (here
-- open_fd, since open is a reserved word), close, read and write of student-distrib/system_calls.c;
-- it calls the drivers through an interface of four-entry tables, FileOps, which Drivers fills with
-- the tables of the same file.
-- Execute is execute, halt, PCB_init and current_PCB of system_calls.c: Execute.Init the control
-- block, Execute.Launch execute, Execute.Halt halt, Execute.Addresses the addresses of stacks, blocks
-- and pages. execute loads with load_process and takes a slot of the run queue of Schedule, which is
-- student-distrib/schedule.c; Execute.Switch is its switch_tasks on the whole kernel state, and its
-- schedule. Execute.Arguments and Execute.Line are about the command line of execute. Execute.Reach has
-- the processes as a system: steps that are calls of execute and halt on the stack of a process, and
-- ticks of the timer, among them launches that find no free pid, and Orderly, the sequences in which
-- each launch finds one; Execute.Alive says which processes have been started, Execute.Cases
-- how the calls end, Execute.Keeps, Execute.Invariant, Execute.Resume and Execute.Pids what the steps
-- keep.
-- Screen is the text screen of student-distrib/lib.c: the cursor, backspace, tab, clear, scroll_up,
-- putc and puts.
-- Pic is student-distrib/i8259.c, Rtc is student-distrib/rtc.c and Timer student-distrib/pit.c on top
-- of it, and Port has the port writes that these and the screen make, kept as a list in their order.
-- Keyboard is student-distrib/keyboard.c and terminal.c: the handler as a step on the modifier keys and
-- the line buffers, which echoes through Screen and masks its request through Pic, and keyboard_read,
-- terminal_write and terminal_open; Keyboard.Typing says what keys mean for a line,
-- Keyboard.Keys and Keyboard.Edited what the handler makes of them, Keyboard.Entered is about a line that
-- is typed, entered and read. Execute.Services has getargs and vidmap of system_calls.c.
-- Boot is entry of student-distrib/kernel.c as the list of what it prints and calls, with the two
-- descriptors that it fills; Segment is student-distrib/x86_desc.h, Idt is idt_init of
-- student-distrib/idt.c and Idt.Handlers what its handlers of the exceptions print, and Paging is
-- paging_exec of student-distrib/paging.c. Boot calls the other parts in order; each is modelled in its
-- own module.
-- User is syscalls/, the programs over an interface of system calls, Calls: User.Support and
-- User.Numbers are ece391support.c, User.Programs cat and ls, User.Shell the shell, hello, testprint and
-- counter, User.Errors the tests of ece391syserr.c, and User.Grep grep.
-- Prelude has what the parts share: Boolean tests, lists over the native numbers, words, bits,
-- integers and counted loops. Tests has concrete runs.
--
-- How the C is modelled: unsigned words are numbers with their wrap-around written out, int32_t values
-- that may be negative are integers, pointers to memory are addresses into a function from an address
-- to a byte, and arrays without a bound check are functions or lists that keep nothing out of range.
-- State is passed explicitly. Uninitialised local variables are arguments, the pid of a launch that finds
-- none free among them. The cursors, which are ints, are kept as 32-bit words, -1 with all bits set.
-- A call that does not return, that faults, or that writes behind the arguments of a control block is
-- the value none.
--
-- Bounds and fuel: strlen, strcpy and the scanning loops run on fuel, and the theorems ask for more
-- fuel than the string is long. read_data has the fuel 2 ^ 16, more rounds than its uint16_t block
-- counter has values. itoa and printf run on fuel above the number of digits or characters, eleven for
-- a machine word in base 10. The loop over the memory map has a round for four bytes, the least that a
-- descriptor moves it on. The programs have a round for each byte, name or line they are given and one
-- more. The search of read_fs runs on fuel above the index of the entry, and the search
-- of the scheduler on seven rounds, the number of slots.
--
-- Not modelled: the assembly of boot.S, x86_desc.S and system_calls_wrapper.S, the interactive tests of
-- student-distrib/tests.c, the layers that run the programs on a Linux host (ece391emulate.c), the
-- programs pingpong and sigtest, and the fish animation, whose blinking is assembly. The
-- handlers of the interrupts in idt.c, which save registers around a call, and flush_TLB, which reloads
-- a register with its own value, are left out too. The tables of Drivers have no closing entries, since no
-- call uses them.
-- The stack switch of the scheduler and the jump to user mode are assembly; their effect is a value of
-- Execute.Control. strcpy, strncpy and memcpy are taken not to overlap with what they read; memmove is
-- modelled on one memory. Behind the 1024 bytes of the command in execute, and the 128 of its
-- arguments, no neighbour is modelled; the theorems ask for shorter ones. The registers that
-- paging_exec and entry load have no further effect here.
pub mod Prelude
pub mod Boot
pub mod Descriptor
pub mod Drivers
pub mod Execute
pub mod Filesystem
pub mod Idt
pub mod Keyboard
pub mod Memory
pub mod Pic
pub mod Port
pub mod Rtc
pub mod Process
pub mod Schedule
pub mod Printf
pub mod Paging
pub mod Screen
pub mod Segment
pub mod Strings
pub mod Syscall
pub mod Tests
pub mod Timer
pub mod User
