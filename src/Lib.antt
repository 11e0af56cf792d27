-- ===== src/Lib.antt =====
-- CrossDB is an embedded SQL database. This library models the part of it that keeps the rows and that
-- makes transactions of their changes, and proves what each part promises.
--
-- A row lives in a block of its table's store (core/xdb_store.c): the store numbers its blocks from 1,
-- gives them out and takes them back, and doubles when it is full. Variable-length data lives in further
-- stores, one for each size class (core/xdb_vdata.c). Each row is entered in all indexes of its table
-- (core/xdb_index.c). A connection in a transaction keeps, for each table, the ids of the rows that it
-- inserted and of those that it deleted (core/xdb_trans.c) in two bitmaps (lib/xdb_bmp.c); a control
-- byte in the row says whether the row is free, new or committed, and xdb_row_valid reads the byte and
-- the bitmaps to tell whether a connection sees the row. A commit marks the new rows as committed and
-- frees the deleted ones; a rollback frees the new ones. Before a commit the transaction is written to
-- the write-ahead log of its database (core/xdb_wal.c), a record for each deleted and each new row behind
-- a header with a length, an id and a checksum; a recovery does the records of the whole commits again.
-- A database has two logs: one takes the commits while the tables of the other are flushed.
--
-- Files (paths are those of the repository):
--   Base        names of the libraries, tests on numbers, lists, updates of functions.
--   Bmp         src/lib/xdb_bmp.c. Bmp/Word: the bits of a 64-bit word. Bmp/Scan: the loops over the bits
--               of a word, and the ascending list of the numbers with a property, which is what the
--               iterations are compared with. Bmp/Leaf: xdb_lv2bmp_t with xdb_lv2bmp_init, _set, _clr, _get
--               and _iterate as init, set, clr, get and iterate. Bmp/Root: xdb_bmp_t with xdb_bmp_init,
--               _set, _clr, _get and _iterate; a pointer is an option, and the result none is a read
--               through NULL. Its invariant is Bmp/Root/Valid.
--   Store       src/core/xdb_store.c: xdb_stg_alloc, _free, _truncate, _expand and _init as alloc, free,
--               truncate, expand and init, and XDB_IDPTR as id_ptr. A block is a record of its first
--               word, its control byte and the rest. Store/Valid is the invariant, which names the
--               blocks in use and the queue of the free ones.
--   Index       src/core/xdb_index.c: xdb_idx_addRow and xdb_idx_remRow, over an interface of what one
--               index does.
--   Hash        src/core/xdb_hash.c and xdb_hash.h: xdb_hash_add as add, with its part behind the growth
--               of the files as insert, xdb_hash_rehash as rehash; Hash/Query has xdb_hash_query and
--               _query2 as query and query2, Hash/Remove xdb_hash_rem and _init as rem and init.
--               Hash/Chains says what the chain of a slot holds, Hash/Valid is the invariant.
--   Rbt         src/core/xdb_rbtree.c and xdb_rbtree.h: xdb_rb_left_rotate and _right_rotate as rotate of a
--               side, xdb_rb_insert_fixup as insert_fixup, xdb_rbtree_add as add behind the growth of the
--               file; Rbt/Remove has xdb_rb_transplant, _delete_fixup and xdb_rbtree_rem, Rbt/Query
--               xdb_rb_minimum and _maximum (outermost), _successor and _precessor (beside), _find, and
--               xdb_rbtree_query. Rbt/Tree says which tree the nodes hold and what lies above a node,
--               Rbt/Sound what the colours of a red-black tree are, and Rbt/Ended what an index holds.
--               Rbt/Turn, Step, Fixup and Repair follow the repair of an insertion, Rbt/Landing and
--               Hang its descent. Rbt/Delete, Lower, Beside, Shrunk and Deleted follow the loop of
--               xdb_rb_delete_fixup; Rbt/Cut, Seek, Around and Outer the removal of a node with at
--               most one child, Rbt/Rename, Placed, Inner, Replace and Inside that of a node with two,
--               Rbt/Removed and Clear that of any row, and Rbt/Search follows xdb_rb_find. Of the rows
--               with one key the tree holds the first; the lists of the others are modelled, and no
--               theorem is about them.
--   Trans       src/core/xdb_trans.c, xdb_trans.h and the insertion and deletion of src/core/xdb_crud.c:
--               xdb_trans_addrow, _delrow, _getrow, _tbl_commit and _tbl_rollback, xdb_row_valid,
--               xdb_row_insert and xdb_row_delete. Trans/Seen has the invariant of the two lists.
--   Wal         src/core/xdb_wal.c and xdb_wal.h: xdb_init_wal, xdb_wal_expand, xdb_trans_newrow_wal,
--               _delrow_wal, _tbl_wal and _db_wal, __xdb_wal_flush and xdb_wal_switch as init, expand,
--               new_entry, del_entry (both written by log_row), tbl_wal, and in Wal/Write db_wal, in
--               Wal/Flush flush and switch; Wal/Iterate has xdb_wal_iterate, Wal/Redo xdb_wal_redo_row and xdb_wal_redo, Wal/Flush what
--               xdb_flush_db does with the logs. Memory is a function from offsets to bytes
--               (Wal/Bytes), and a write outside of the mapping gives none. Wal/Log says what a log
--               holds; Wal/Rows, Wal/Append, Wal/Commit and Wal/Db follow a transaction into it, Wal/Replay
--               and Wal/Recover its replay; Wal/Wrapped is about a length that makes a sum wrap.
--   Conn        src/core/xdb_trans.c above one table: xdb_trans_db_commit, _db_rollback, _db_unlock and
--               _unlock, xdb_commit, xdb_rollback and xdb_begin2; Conn/Tables is about the tables of
--               a database, Conn/End about the databases of a connection.
--   Vdata       src/core/xdb_vdata.c: the size classes and the reference count.
--   Like        src/lib/xdb_str.c: __xdb_str_like as like, with its inner loop as star; Like/Spec is what a
--               pattern means.
--
-- Numbers are natural numbers. Where the code wraps (the 16-bit count of a leaf, the 32-bit products of
-- the store and its doubled capacity, the word of a variable-length block, the sizes that the replay of
-- the log adds up in 64 bits) the wrap is written out. What malloc and the mapping
-- of files give is an argument, with none for a failure. A row id is below 2 ^ 31, since the type is an
-- int whose top bit is reserved; the bitmaps have no meaning from there on, which their definitions say
-- by none. Loops on fuel are the binary search of Vdata (8 rounds halve 76 entries to nothing),
-- the doubling of xdb_wal_expand (31 rounds: from 1 on, wal_cap * 4096 overflows before) and the two loops of
-- xdb_wal_iterate (a round for each byte of the log, since a commit has 32 bytes and a record 12).
-- The walks along the chains of the hash index have the number of turns as an argument, and the theorems
-- ask for one more than the rows of the chain. xdb_wyhash is an argument, of which only its 32 bits are used.
--
-- Not modelled: the SQL parser, the evaluation of queries, the catalogue, the server, replication and
-- the shell; opening, closing and syncing of files; the replay of variable-length data; locks and threads (a connection that changes a table holds its write lock, so at most one
-- connection has lists for it); freeing of a connection's bitmaps (xdb_bmp_free); rows with
-- variable-length fields, triggers and subscriptions in Trans.
pub mod Base
pub mod Bmp
pub mod Store
pub mod Index
pub mod Hash
pub mod Rbt
pub mod Trans
pub mod Wal
pub mod Conn
pub mod Vdata
pub mod Like
