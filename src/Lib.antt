-- ===== src/Lib.antt =====
-- A model of kthxvm, a small virtual machine monitor on KVM: the devices that it emulates, the
-- rings that its paravirtual devices share with the guest, and the tables that it builds in the
-- guest's memory before the first instruction.
--
-- The parts and their files. Paths are from the root of the repository.
-- - Base: shared types and lemmas. Numbers are natural numbers, and each store of the source into a
--   type of w bits is a remainder modulo 2^w. `Result` has an error for an exception and one for
--   what the source does not check: an access outside of an array, or a division by zero. Memory is
--   the guest's memory, a function from addresses to bytes, with little-endian loads and stores.
-- - Interrupt is src/kvm/interrupt.h, the line that every device drives; devices return their calls
--   of `set_level` as effects, and `deliver` makes them.
-- - Uart, I8042 and Rtc are src/kvm/device/uart.h, i8042.h and rtc.h: the state is a record with the
--   members of the class, and each method is a function from the state to the next one, with the
--   bytes that a read stores and the effects.
-- - Queue is src/kvm/virtio/queue.h, the device's side of a virtqueue in the guest's memory. Mmio is
--   src/kvm/virtio/device.h and mmio.h, the registers through which a driver sets a device up, and
--   Mmio.Bus the bus with its address ranges (src/kvm/device/io_device.h). A class of devices is a
--   record of its virtual members.
-- - Blk, Rng and Net are src/kvm/virtio/blk.h, rng.h and net.h, devices behind a virtqueue. A
--   request is one round of the loop of `run` or one call of `update`; the disk's image
--   is a stream with a position and a failure bit (Blk.File), and random bytes are an argument.
-- - Machine is the rest of src/kvm/vm.h and vmm.h: the devices that `start` adds, with their lines
--   (Interrupt.Lines), and the loop of `run_cpu`, which hands every access of the guest to the
--   device that has the port or the address. Its steps (Machine.Steps) are the exits of the
--   processors, the keys that are typed and the stop of the machine, in any order. Machine.Virtio is
--   the bus with the classes of virtio/blk.h, rng.h and net.h.
-- - Config is the configuration space that src/kvm/virtio/blk.h and net.h share; the members that the
--   register file calls are in Blk.Members, Net.Members and Rng.Members.
-- - Cpu is src/kvm/vcpu.h (the loop of `run`), apic.h, msr.h and the registers of regs.h; Terminal is
--   src/os/terminal.h, and Elf is src/elf/elf.h. The answers of the system's calls are arguments.
-- - Ram, Routing and Cpuid are the memory slots of src/kvm/vm.h, the interrupt routes of
--   src/kvm/irq.h and the two filters of src/kvm/cpuid.h. Ram.Boot is `setup_bootparams` of
--   src/kvm/vm.h, as assignments to the members of a structure whose layout is a parameter.
-- - Mptable is src/kvm/mptable.h, the table of processors and interrupts that a guest finds by its
--   signature, with the structures and addresses of src/include (mpspec_def.h, apic.h, apicdef.h).
-- - Gdt and LongMode are src/kvm/gdt.h and regs.h, with the constants of def.h and layout.h.
-- - Host is the start of the program: src/main.cpp, the constructors of src/kvm/kvm.h, vm.h, vcpu.h,
--   src/os/terminal.h and of the virtio devices, and `vmm::start` of src/kvm/vmm.h up to the threads. It is
--   a monad over the list of the calls made so far; the system is a function that answers a call.
--   What the kernel fills in (Kernel) and the outcome of `elf::load` are arguments.
-- - Vmm is the rest of `vmm::start`: its own thread, one for each processor and the one of the
--   terminal. A move takes one thread to the next place in its code, and moves come in any order;
--   Vmm.View has them as a step relation, and Vmm.Machines makes them steps of Machine.
--
-- A method runs under its object's mutex and is one step. Guest addresses are addresses of Memory.
-- The loops of Blk and Net over a chain of descriptors have fuel, since a guest can close a chain to
-- a circle, on which the source does not end either; so have the clients that theorems are about (a
-- device that drains a queue, a driver that polls the port). Each theorem gives a bound that is enough.
--
-- Not modelled: what the calls of ioctl, mmap, poll and of files do in the system; the destructors;
-- the attributes of the terminal and what is printed; in
-- src/kvm/vm.h `send_interrupt` and `trigger_interrupt`, and in src/kvm/util.h
-- `binary_load`, which nothing calls. Two processors handle an exit one after the
-- other, though the code has no lock there. src/include is a copy of headers of the kernel, of which the
-- used constants and structures are in Mptable. Numbers that come from the kernel's headers are
-- parameters.
pub mod Base
pub mod Memory
pub mod Interrupt
pub mod Uart
pub mod I8042
pub mod Rtc
pub mod Queue
pub mod Mmio
pub mod Config
pub mod Gdt
pub mod LongMode
pub mod Cpu
pub mod Cpuid
pub mod Ram
pub mod Routing
pub mod Mptable
pub mod Blk
pub mod Rng
pub mod Net
pub mod Machine
pub mod Vmm
pub mod Terminal
pub mod Elf
pub mod Host
