-- ===== src/Lib.antt =====
-- Verification of the core components of Speakeasy, the emulator of Windows malware.
--
-- The emulator runs a sample in an emulation engine and answers its API calls in Python. The handlers
-- of the API calls keep the state of the emulated Windows in managers. This library models the
-- managers below as pure functions from a state to a result and a new state, and proves the
-- properties that the handlers rely on.
--
-- Memory (speakeasy/memmgr.py). `Manager` of Memory/State is `MemoryManager`, and the functions of
-- Memory/Manager are its methods under their names: mem_map, mem_free, mem_reserve, mem_map_reserve,
-- get_valid_ranges and the lookups. `memory_get_valid_ranges` is the search of MemoryManager, and
-- `get_valid_ranges` its override in WindowsEmulator (speakeasy/windows/winemu.py), which avoids the
-- reserved range of the emulator and which the other methods call. Memory/Pages has the page arithmetic and the scan for a free
-- range, and Memory/Tag the tags of `MemMap`. The emulation engine, which is a package and not a part
-- of the repository, is the record `Engine` of Memory/Engine: the mapped regions, map and unmap, with
-- their documented laws; Memory/Engine/PageList is an engine that has these laws. The settings that
-- the class takes from subclasses are fields of the state. Nothing in the code keeps the base of a
-- reserved range at a page address, so the theorems on searches assume it, as part of `IsSound` or by
-- itself. Memory/Search and Memory/Invariant have
-- the proofs; `IsSound` is the invariant of the manager.
--
-- Handles (speakeasy/windows/handles.py and the HandleAllocator of speakeasy/windows/objman.py). The
-- handle tables of all processes and kinds share one allocator: a table is verified beside the
-- handles of the others. What the table does with its objects is the record `Owner`.
--
-- Unwind (speakeasy/windows/unwind.py). Unwind/Table has the function tables of images and of the
-- sample, Unwind/Info the unwind infos, and Unwind/Frame the unwinding of one frame. Guest memory is
-- a function that reads bytes or fails. Unwind/Frame/Prolog describes prologs of pushes and
-- allocations by what their instructions do, independent of the unwind codes; the saves of registers
-- by a move, frame registers and machine frames are undone by the model but not in a prolog there.
-- Unwind/Frame/Chain follows the chain of infos. The loop over a page table has one unit of fuel
-- for each entry and one more, which is enough since each round reads at least one entry; the binary
-- search has one more than the table has entries, and halves the range in each round; the decoder of
-- the codes has one more than the count of slots, and each code has at least one slot. The chain of
-- infos is bounded by the code itself, at 32.
--
-- Files (speakeasy/windows/fileman.py, the classes `File` and `NullDevice`). Two file objects can
-- share a buffer, so that file objects and buffers are numbered in a store. Files/Bytes has the
-- writes of a buffer, Files/Io the reads and writes of one object, and Files/Shared what two objects
-- see of each other.
--
-- Callbacks (speakeasy/windows/guest_callbacks.py). The frames of the running guest callbacks are a
-- list with the last one first. Modelled are the functions on the frames and the search of the first
-- unmapped byte of an access, on the regions of Memory/Engine; its loop has one unit of fuel for each
-- byte of the access and one more, and each turn moves on by one byte at least. The generators that
-- run on the frames are functions of a world in Seh.
--
-- Breakpoints (speakeasy/windows/hardware_breakpoints.py): the execute breakpoints of the debug
-- registers, the hooks that `update` keeps for them, and the hit of a hook. A hook is known by its
-- address.
--
-- Volumes (speakeasy/volumes.py): the parse of a volume specification. The classes of pathlib, which
-- make a path of a text, are parameters.
--
-- Seh (speakeasy/windows/seh.py and speakeasy/windows/cpu_exceptions.py). A generator handler is a
-- function of a world: the state of the guest, the frame of the handler, and the guest functions that
-- it called. A guest function is a step of the record `Guest`, which can change the guest in any way
-- or not return. Seh/Dispatch has the class `Dispatch`, Seh/Entry the entry points, Seh/Records the
-- record of an exception and Seh/Cpu the exceptions of the processor. Seh/Bounds, Seh/Outcomes and
-- Seh/Preserves have the lemmas on programs of this kind, and Seh/ByteMachine a guest for tests. The head of the
-- chain of registrations is a field of the TEB in guest memory; the record has its read and its write,
-- and the theorems on the chain say which changes of the guest keep it.
--
-- Seh32 (speakeasy/windows/seh32.py): the dispatch along the registrations, and in Seh32/Msvc the
-- handlers of MSVC frames. The loops have MAX_FRAMES turns, as the code has. Seh32/Chain and
-- Seh32/Unwinding have the proofs.
--
-- Seh64 (speakeasy/windows/seh64.py): one turn of the walk of the frames, and in Seh64/Frames the
-- dispatch and the unwind, whose walks have MAX_FRAMES turns, in Seh64/Handler __C_specific_handler
-- and in Seh64/Tables the API of the function tables. Both stand on Unwind and on Callbacks.
--
-- Registry (speakeasy/windows/regman.py): the paths and values, in Registry/Manager and
-- Registry/Values the methods of the manager, and in Registry/Defaults its constructor with the
-- default values. Keys are numbered objects, since handles, the list of keys and the predefined keys
-- share them. What the code uses of Python's library on texts is the record `Host`.
--
-- Objects (speakeasy/windows/objman.py, the class `ObjectManager`): the objects by their addresses,
-- their references and symbolic links. Objects/Counts has the proofs.
--
-- Not modelled: the methods of the file manager, the start of a handler frame, the API handlers, the
-- loaders and the run loop, which connect the managers to the engine and to
-- parsed files; the recording of events, the debugger and the command line, which are input and
-- output; and generated definitions.
--
-- Base has the names that the modules share, Boolean tests of numbers, lists measured by native
-- numbers and signed integers.
pub mod Base
pub mod Memory
pub mod Handles
pub mod Unwind
pub mod Files
pub mod Callbacks
pub mod Volumes
pub mod Breakpoints
pub mod Seh
pub mod Seh32
pub mod Seh64
pub mod Registry
pub mod Objects
