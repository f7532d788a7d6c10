-- ===== src/Lib.antt =====
-- corsaro3: capture, tagging and analysis of network telescope traffic. This library models the
-- program's own logic in C and proves what makes it correct.
--
-- Base holds the names that all modules share: Boolean tests and the conditional, arrays as
-- functions of the index, the option monad in which `none` is a run that reads through a null
-- pointer, and the laws of `&` with constant masks.
--
-- Filtering models libcorsaro/libcorsaro_filtering.c and .h. Packet has its types and the
-- interface of libtrace, which is a parameter: a header is a record of libtrace's field names,
-- each field of several bytes held as the number that ntohs or ntohl makes of it. A payload is
-- memory, a function from offsets to bytes, so that a read past the captured length is a read
-- like any other. Params is PREPROCESS_PACKET and _set_filter_params, whose common code is in
-- the source twice and in the model twice. Headers, Protocols, Payload and Compound are the
-- _apply_*_filter functions under their names; a Verdict is the int -1, 0 or 1 that they
-- return. Ids is the enumeration and the names; ApplyAll, ById and Entry are the
-- corsaro_apply_* functions. The uint8_t result of an entry is a number, 255 for -1. The
-- logger, which does not change a result, is left out.
--
-- Filtering.Custom models the filters by a string at the end of the same file: libtrace makes a
-- filter of a string or does not, and the state is how many filters exist.
--
-- Dos models the packet rates of libcorsaro/plugins/corsaro_dos.c: the checks of
-- corsaro_dos_finalise_config, attack_vector_update_ppm_window, combine_ppm_list and
-- calculate_maximum_ppm, and, in Vectors, what combine_attack_vectors does to the counters, the
-- times and the first packet of two vectors. Judy, whose arrays hold the buckets, is an
-- interface, JudyL, of the macros that are called with the laws of an ascending list of
-- entries, which Entries has; Tests has a list as an instance. A loop over the entries is given
-- fuel, for which their number is enough. The int buckoff is the lower 32 bits of a signed
-- quotient; the count of passes is 0 where it is not positive. Windows, Combine and Maximum are
-- the theorems.
--
-- PriorityQueue models libcorsaro/pqueue.c and .h, the queue by which corsaroftmerge orders its
-- inputs. An element is a number, its address, and never the null pointer; the comparison
-- callback is a parameter, and the positions that the callbacks setpos and getpos keep in the
-- elements are a function beside the array. The flag of an allocation says whether it succeeds.
-- The bubbling loop has the index as fuel, since the index halves in every round; the
-- percolating loop, the validity check and the printing loop have the size, since the index
-- grows or the queue shrinks in every round. Sizes are numbers without a bound: an array of
-- pointers in memory has far fewer than 2^64 slots. pqueue_print works on a copy whose setpos
-- does nothing, and the model prints from the queue's value, which no one sees again.
-- pqueue_free and pqueue_dump, which have no result, are left out.
--
-- Merger models corsaroftmerge/corsaroftmerge.c, on the record that Flowtuple has. A reader
-- thread is the list of what zmq_recv does on its socket: EAGAIN, an error, or a message of a
-- pointer, NULL at the end; an error while a socket is set up counts as its first reply. A run
-- that waits for a message that never comes ends as hanging, one that goes to endmerger after
-- an error as aborted. The memory behind the pointers is a function, mem; what prev points to
-- is held by value, since run_merger writes a record only after it has left the queue and no
-- other pointer to it is followed. What is written is the list of records given to
-- encode_flowtuple_as_avro. The fuel is one more than the number of replies, since every pop
-- but the last is followed by a read. ft_cmp_pri is true of two equal flows, so PriorityQueue
-- states the heap order by a second relation, above, which says what may stand above what.
-- Merger.Order, Collapse, Streams, Invariant, Insertion, Absorb, Setup and Loop hold what Run
-- uses. Signals are not modelled: halted stays 0.
--
-- ByteSwap is the byte swaps of libcorsaro/libcorsaro_common.c on a little-endian host; where
-- the source joins parts that have no bit in common by |, it adds them. Tagging models parts of
-- libcorsaro/libcorsaro_tagging.c: Loss is the tracker of lost packets, which reads the fields
-- of a header in host byte order; FilterBits is update_filter_tags, with the bits as the number
-- that is stored; Tags is calc_flow_hash, the update_*_tags functions, _corsaro_tag_ip_packet
-- and the two functions that call it, with libipmeta as a parameter and each field of the tags
-- as the number that its bytes are; Taggers is the creation, replacement and destruction of
-- taggers, with the lookup states by their address, as a sequence of calls, each of which is
-- one step, although the replacement takes its two locks one after the other; a state has one
-- reference of the program that loaded it, as corsaro_load_ipmeta_data makes it, and the steps
-- of corsarotagger/corsarotagger.c that give this up and that free a state which is ending are
-- there too. A run that reads freed memory or a null pointer, or fails an assertion, is none.
-- Base.Or has the laws of | and 1 << i.
--
-- Avro models the encoder of libcorsaro/libcorsaro_avro.c: the buffer is the list of the bytes
-- written to it, with its size; a write outside it is none. A number of 64 bits is its
-- remainder modulo 2^64, on a little-endian host, and each call is given whether realloc has
-- memory. Ten passes are the fuel of the loop over groups of seven bits, since 64 bits have at
-- most ten. Groups and Values hold what the specification of avro reads in the bytes, Bounds
-- where they fit. Flowtuple has the record of libcorsaro/libcorsaro_flowtuple.h and models
-- libcorsaro/libcorsaro_flowtuple.c: the calls by which a record is encoded are a list of
-- fields, encoded until one fails; libavro and the numbers of libipmeta's providers are
-- parameters.
--
-- Memhandler models libcorsaro/libcorsaro_memhandler.c and .h. A pointer is an address, 0 is
-- NULL, and the sources (corsaro_memsource_t) are a function of the address, so that the free
-- list is the linked list that it is in memory and a freed source is one that is not there.
-- malloc and mmap are a parameter of each call, Fresh, whose hypothesis IsFresh says that they
-- give memory that is not in use. The lock is a flag; a run that uses a freed source, fails an
-- assertion, waits for its own lock or unlocks a free one is none. The counters wrap at 2^32,
-- and a negative int is read as its remainder. The loop that shortens the free list has the
-- length of the list as fuel, and the loop that frees it is given fuel, which the length
-- suffices for. Ledger is the items that users hold, Valid the invariant, Store, Refill, Get
-- and Release the steps, Reachable what holds after any calls, also by users who join and
-- leave, and Destroy the end.
--
-- Not modelled: the option strings of the providers, the life of avro readers and writers, the
-- rest of the plugin for denial of service (finding the vector of a packet, the tables of
-- khash, the output), the plugins for flowtuples and reports, the reader of tagged traces, and
-- what corsarotrace, corsarotagger and corsarowdcap do with threads and sockets; logging, the
-- calls of libtimeseries, the parsing of configuration by libyaml, and everything that is not
-- C.
pub mod Avro
pub mod Base
pub mod ByteSwap
pub mod Dos
pub mod Filtering
pub mod Flowtuple
pub mod Memhandler
pub mod Merger
pub mod PriorityQueue
pub mod Tagging
