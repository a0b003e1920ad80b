-- ===== src/Lib.antt =====
-- RMDB, a relational database server in C++ (src/). The development covers the frames and pages of
-- its storage, its table files, its indexes in memory, its locks, its log, its transactions and its
-- recovery.
--
-- Parts and files:
-- - Prelude and its children: names of the libraries, Boolean tests on numbers, lists, signed
--   numbers (ℤ, for page and slot numbers with their -1), and Assoc, which models
--   std::unordered_map.
-- - Record/Bitmap: src/record/bitmap.h. A bitmap is a list of bytes. Bits has the laws of single
--   positions, Scan those of the search for the next one.
-- - Errors: src/errors.h, the classes of exceptions, and the result of a call that may throw.
-- - Record/Pages, Record/Table: src/record/rm_defs.h and rm_file_handle.cpp. A table file works
--   over an interface, Pages, which is what it asks of the buffer pool: fetch, unpin, new page, and
--   bytes written through the pointer to a frame, by what they do to a view of the file's pages,
--   their pins, the pages that were written and not yet reported dirty, and the number of the next
--   new page, which is taken also where making the page throws. A page is its header, its bitmap and
--   its slots. The pages of the file are taken to be readable: what a failed read leaves in the
--   pool is in Storage/Pool/Faults. Access and Held follow a page from its fetch to its unpin; Calls has
--   each call on a record; FreeList, Keeps and Open the list of pages with a free slot; Grown,
--   Create and Insert the page that a new record goes into; Records and Lookup the file as a map
--   from positions to bytes.
-- - Record/Scan, Record/Manager: rm_scan.cpp, the records one after the other, and the header that
--   create_file of rm_manager.h gives a new file.
-- - Storage/Posix, Storage/Files: src/storage/disk_manager.cpp over the system calls it makes,
--   which are an interface, Posix, with what POSIX says of the descriptors they open and close.
--   Opened and Calls are about the two maps of open files.
-- - Storage/Replacer: src/replacer/lru_replacer.cpp. The list has nodes with identities, which the
--   hash map's iterators name. Nodes and Refines relate it to a plain queue.
-- - Storage/Page, Storage/Disk, Storage/Pool: src/storage/page.h and buffer_pool_manager.cpp. The
--   pool works over an interface, Disk, which is what it asks of src/storage/disk_manager.cpp. The
--   pool calls the replacer (pin, unpin, victim) and the disk (read, write, allocate) as the code
--   does. Valid has the invariant of the pool and the bytes that belong to a page; Victim, Evict,
--   Repaint and Settle follow a frame that is taken, changed in place, or given a new page; Fetch
--   and Release are about single calls, Runs about sequences of them, Faults about a read that
--   throws.
-- - Concurrency/Transaction, Concurrency/Locks: src/transaction/txn_defs.h, transaction.h and
--   concurrency/lock_manager.cpp. Modes reads the tables of lock modes against the rights that each
--   mode gives; Queues, Safety and TwoPhase are about one queue, the lock table and runs of calls
--   by several transactions; Upgrade and Ownership about single calls and the release of all locks.
-- - Recovery/Bytes, Recovery/Log: src/recovery/log_manager.h and log_defs.h, the log records as
--   bytes; Layout has what serialize writes, RoundTrip what build_log_record (log_recovery.cpp)
--   reads.
-- - Recovery/Manager: log_manager.cpp and RecoveryManager::analyze, over a log file that is a list
--   of bytes and grows by what write(2) writes. The size of the log buffer is a parameter
--   (log_buffer_size is the code's). Drain and Appends have the records in the file and the buffer,
--   Rounds one round of the reading back, Analysis the whole of it, Durable the two together, Transactions the sets of committed and
--   active transactions.
-- - Transactions: src/transaction/transaction_manager.cpp, and redo and undo of
--   src/recovery/log_recovery.cpp, over an interface, Tables, which is what they ask of the table
--   files and the indexes of src/system/sm_manager.h. Writes is the loop of abort, Manager is
--   begin, commit and abort with the log and the locks, Replay is redo and undo. Restore, Finish,
--   Outcome and Whole have what they leave in the tables and in the lock table.
-- - Index: the file header of src/index/ix_defs.h as bytes, and its reading back.
-- - System/Values, System/Keys: the comparison of raw values and the conditions of
--   src/execution/execution_defs.h and src/common/common.h, and the keys of an index
--   (src/system/sm_manager.cpp: make_index_key, compare_index_key). Laws and Order have the orders
--   that these are; Width is about the bytes that a comparison reads. A float is compared by its
--   binary32 bytes; a NaN compares as equal to everything, as in the code, and the theorems leave
--   it out.
-- - System/Entries, System/IndexScan: the runtime indexes of src/system/sm_manager.cpp, as the
--   vector of entries that each is: the bodies of the loops of check_index_insert,
--   insert_index_entries and delete_index_entries, create_index and rebuild_runtime_index, and
--   scan_index. Find sees the entries as a map from positions to keys; Sorted, Unique, Deleted and
--   Mirror say what a change leaves; Build has the making of an index; Prefixes, Bounds, Reached,
--   Loop, Between and Complete follow a scan from its conditions to its entries.
-- - System/Manager: the calls themselves, which go over the indexes of a table; Each and Whole
--   follow these loops. A runtime index is found by its name, as in the code.
-- - Execution/Scans: src/execution/executor_index_scan.h and the loop of src/portal.h that drains
--   it, over a table that is a map from positions to bytes. Filter is about that loop, Suits and
--   Index about what it finds, and Feed about the conditions that its constructor turns round.
-- - Tests: runs on small inputs, and each theorem at one input.
--
-- Signed machine integers are unbounded here where the code only counts pages, frames, pins or
-- transactions: an overflow of these is undefined behaviour in C++. Bytes are numbers below 256. The
-- size of a file and the offset of analyze are of type int, with their wrap (to_int and add_int of
-- Prelude/Int): a log file of 2^31 bytes or more does not have its size there, which is why the
-- theorems on the log ask for a shorter one.
-- Methods that hold a latch for their whole body are single steps, and threads are sequences of
-- such steps. Loops are structural recursions; the search of a bitmap recurs on the positions left.
-- The loop of a scan has a round per page that is left, that of an index scan one per position, the
-- one that appends pages a round per page that is missing. The loop of analyze has one round per
-- byte of the file and one more as fuel: a round that goes on consumes at least a header of 20
-- bytes.
--
-- Not modelled: the header of a table file on disk, the index but for its file header (most of its
-- operations are empty in the source), the catalog but for the entries of its indexes, the
-- analyzer, the planner, the executors but for the index scan; the generated parser, the server and
-- the client. Nor is it shown that the parts below implement the interfaces Disk, Pages and Tables:
-- the disk manager, the buffer pool and the table files are each treated for themselves.
mod Prelude
pub mod Errors
pub mod Record
pub mod Storage
pub mod System
pub mod Execution
pub mod Recovery
pub mod Concurrency
pub mod Index
pub mod Transactions
mod Tests
